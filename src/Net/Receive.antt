-- ===== src/Net/Receive.antt =====
-- What a read of a stream leaves in its buffer.
use native.Mathlib.Nat.{mod-eq_of_lt}
use mathlib.Core.Path.{subst}
use vee.Base.{
  ℕ, suc, true, ◌-◌, ◌^◌, ◌≤◌, ◌<◌, ◌≡◌, ap, ap₂, ◌∙◌, Option, some, List, ◌++◌, arith, leb_refl,
  length, length-append, length-replicate, take_all, drop, replicate, append-nil, drop_all,
  drop-replicate,
}
use vee.System.{returns}
use vee.Text.{make_string}
use vee.Text.Search.{lacks, make_string-lacks}
use vee.Net.Socket.{Socket}
use vee.Net.Tcp

-- The buffer after a read of these bytes.
abbrev pub filled : List ℕ → ℕ → List ℕ
filled bytes capacity = bytes ++ replicate (capacity - length bytes) 0

pub length-filled :
    (bytes : List ℕ) (capacity : ℕ)
    → length bytes ≤ capacity
    → length (filled bytes capacity) ≡ capacity
length-filled bytes capacity h = omega (
  arith,
  length-append bytes (replicate (capacity - length bytes) 0),
  length-replicate {A = ℕ} (capacity - length bytes) 0,
)

-- A text that is shorter than the buffer ends at the zeros behind it.
pub make_string-filled :
    (bytes : List ℕ) (capacity : ℕ)
    → lacks 0 bytes ≡ true
    → length bytes < capacity
    → make_string (filled bytes capacity) ≡ some bytes
make_string-filled bytes capacity clean short =
    ap (λ n. make_string (bytes ++ replicate n 0)) {y = suc (capacity - length bytes - 1)}
      (omega arith)
    ∙ make_string-lacks bytes (replicate (capacity - length bytes - 1) 0) clean

module _ (socket : Socket) where
  open socket use {State, write_some, read_some, read_bound}

  read_lem :
      (s s' : State) (buffer bytes : List ℕ)
      → read_some s (length buffer) ≡ (some bytes, s')
      → length buffer < 2 ^ 32
      → (length bytes ≤ length buffer)
        × (Tcp.read socket s buffer (length buffer)
            ≡ (returns (length bytes), filled bytes (length buffer), s'))
  unfolding Tcp.read Tcp.received
  read_lem s s' buffer bytes e small = (
    bound,
    rw (leb_refl (length buffer)) (
        ap (Tcp.received socket (length buffer) buffer) e
        ∙ ap₂ (λ n tail. (returns n, bytes ++ tail, s'))
            (mod-eq_of_lt {n = length bytes} {m = 2 ^ 32} (omega (arith, bound))) tail_zeros),
  )
    where
      bound : length bytes ≤ length buffer
      bound = read_bound s (length buffer) bytes (ap (λ r. r.0) e)

      tail_zeros :
          drop (length bytes) (Tcp.zeroed (length buffer) buffer)
          ≡ replicate (length buffer - length bytes) 0
      tail_zeros =
          ap (λ tail. drop (length bytes) (replicate (length buffer) 0 ++ tail))
            (drop_all (length buffer) buffer (omega arith))
          ∙ ap (drop (length bytes)) (append-nil (replicate (length buffer) 0))
          ∙ drop-replicate (length bytes) (length buffer) 0 bound

  pub receives :
      (s s' : State) (buffer bytes : List ℕ) (capacity : ℕ)
      → length buffer ≡ capacity
      → read_some s capacity ≡ (some bytes, s')
      → capacity < 2 ^ 32
      → (length bytes ≤ capacity)
        × (Tcp.read socket s buffer capacity ≡ (returns (length bytes), filled bytes capacity, s'))
  receives s s' buffer bytes capacity sized =
      subst
        (λ c.
          read_some s c ≡ (some bytes, s')
          → c < 2 ^ 32
          → (length bytes ≤ c)
            × (Tcp.read socket s buffer c ≡ (returns (length bytes), filled bytes c, s')))
        sized (read_lem s s' buffer bytes)

  -- A write of all of a text.
  pub write_all_lem :
      (s s' : State) (bytes : List ℕ) (taken : Option ℕ)
      → write_some s bytes ≡ (taken, s')
      → Tcp.write socket s bytes (length bytes) ≡ Tcp.counted socket (taken, s')
  unfolding Tcp.write
  write_all_lem s s' bytes taken e =
      rw (leb_refl (length bytes), Tcp.write, take_all (length bytes) bytes (omega arith))
        (ap (Tcp.counted socket) e)
