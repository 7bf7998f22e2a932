-- ===== src/Signal/Order.antt =====
-- The signals of a channel are received each once, in their order, and one at a time.
use mathlib.Core.Path.{subst}
use vee.Base.{
  All, All-if, ℕ, zero, suc, ◌≤◌, ◌≡◌, ◌⊎◌, inl, inr, refl, sym, ap, ◌∙◌, Bool, true, false, Option,
  none, some, List, [], ◌∷◌, ◌++◌, ◌==◌, if◌then◌else◌, get_elem?, take, drop, arith, length,
  length-append, append_assoc,
}
use vee.Signal.{
  idle, wait, sig, Receiver, outside, entering, offering, getting, clearing, leaving, Channel, init,
  get, recv, try_send, put, deliver, set_value, Step, receives, sends, sets, Reach, here, later,
}

module _ {ℓ} {T : Type ℓ} where
  -- What a receiver has, and what a promise has.
  abbrev pub held_by : Receiver T → List T
  held_by (clearing value) = value ∷ []
  held_by (leaving value) = value ∷ []
  held_by _ = []

  abbrev pub value_of : Option T → List T
  value_of none = []
  value_of (some value) = value ∷ []

  -- The signals under way.
  abbrev pub under_way : Channel T → List T
  under_way c = held_by c.receiver ++ (value_of c.promise ++ c.sending)

  -- The state and the pointer where the receiver stands.
  abbrev pub IsAt : Receiver T → ℕ → Bool → Type 0
  IsAt outside s p = (s ≡ idle) × (p ≡ false)
  IsAt entering s p = (s ≡ idle) × (p ≡ false)
  IsAt offering s p = ((s ≡ wait) ⊎ (s ≡ sig)) × (p ≡ false)
  IsAt getting s p = ((s ≡ wait) ⊎ (s ≡ sig)) × (p ≡ true)
  IsAt (clearing value) s p = (s ≡ sig) × (p ≡ true)
  IsAt (leaving value) s p = (s ≡ sig) × (p ≡ false)

  -- Where the promise has a value.
  abbrev pub in_get : Receiver T → ℕ
  in_get getting = 1
  in_get _ = 0

  pub record IsSound (c : Channel T) : Type ℓ where
    pub at : IsAt c.receiver c.state c.receiver_ptr
    pub one : length (under_way c) ≡ (if c.state == sig then 1 else 0)
    pub offered : length (value_of c.promise) ≤ in_get c.receiver
    pub whole : c.broken ≡ false
    pub in_order : c.sent ≡ c.received ++ under_way c

  pub placed :
      (r : Receiver T) (c : Channel T) → c.receiver ≡ r → IsSound c → IsAt r c.state c.receiver_ptr
  placed r c e f = subst (λ v. IsAt v c.state c.receiver_ptr) e f.at

  empty : (promise : Option T) → length (value_of promise) ≤ 0 → value_of promise ≡ []
  empty none h = refl
  empty (some value) h = absurd (omega (arith, h))

  get-IsSound :
      (promise : Option T) (c : Channel T)
      → c.receiver ≡ getting
      → c.promise ≡ promise
      → IsSound c
      → All IsSound (get promise c)
  unfolding get
  get-IsSound none c e g f = tt
  get-IsSound (some value) c e g f = record {
    at = (ground (arith, e, g, f.one), (placed getting c e f).1);
    one = ground (arith, e, g, f.one);
    offered = omega arith;
    whole = f.whole;
    in_order = ground (arith, e, g, f.in_order);
  }

  pub recv-IsSound :
      (r : Receiver T) (c : Channel T) → c.receiver ≡ r → IsSound c → All IsSound (recv r c)
  unfolding recv
  recv-IsSound outside c e f =
      All-if IsSound (c.state == wait) _ _ (λ b. tt)
        (λ b. record {
          at = placed outside c e f;
          one = ground (arith, e, f.one);
          offered = ground (arith, e, f.offered);
          whole = f.whole;
          in_order = ground (arith, e, f.in_order);
        })
  recv-IsSound entering c e f =
      All-if IsSound (c.state == idle) _ _
        (λ b. record {
          at = (inl refl, (placed entering c e f).1);
          one = ground (arith, b, e, f.one);
          offered = ground (arith, e, f.offered);
          whole = f.whole;
          in_order = ground (arith, e, f.in_order);
        })
        (λ b. tt)
  recv-IsSound offering c e f = record {
    at = ((placed offering c e f).0, refl);
    one = ground (arith, e, empty c.promise (ground (arith, e, f.offered)), f.one);
    offered = omega arith;
    whole = f.whole;
    in_order = ground (arith, e, empty c.promise (ground (arith, e, f.offered)), f.in_order);
  }
  recv-IsSound getting c e f = get-IsSound c.promise c e refl f
  recv-IsSound (clearing result) c e f = record {
    at = ((placed (clearing result) c e f).0, refl);
    one = ground (arith, e, f.one);
    offered = ground (arith, e, f.offered);
    whole = f.whole;
    in_order = ground (arith, e, f.in_order);
  }
  recv-IsSound (leaving result) c e f =
      All-if IsSound (c.state == sig) _ _
        (λ b. record {
          at = (refl, (placed (leaving result) c e f).1);
          one = ground (arith, b, e, f.one);
          offered = ground (arith, e, f.offered);
          whole = f.whole;
          in_order = ground (
            arith,
            e,
            f.in_order,
            append_assoc c.received (result ∷ []) (value_of c.promise ++ c.sending),
          );
        })
        (λ b. tt)

  -- An exchange of WAIT for SIG.
  IsAt-sig : (r : Receiver T) (s : ℕ) (p : Bool) → s ≡ wait → IsAt r s p → IsAt r sig p
  IsAt-sig outside s p e h = absurd (omega (arith, e, h.0))
  IsAt-sig entering s p e h = absurd (omega (arith, e, h.0))
  IsAt-sig offering s p e h = (inr refl, h.1)
  IsAt-sig getting s p e h = (inr refl, h.1)
  IsAt-sig (clearing value) s p e h = (refl, h.1)
  IsAt-sig (leaving value) s p e h = (refl, h.1)

  snoc :
      (c : Channel T) (value : T)
      → held_by c.receiver ++ (value_of c.promise ++ (c.sending ++ value ∷ []))
        ≡ under_way c ++ value ∷ []
  snoc c value =
      ap (λ (values : List T). held_by c.receiver ++ values)
        (sym (append_assoc (value_of c.promise) c.sending (value ∷ [])))
      ∙ sym (append_assoc (held_by c.receiver) (value_of c.promise ++ c.sending) (value ∷ []))

  pub try_send-IsSound : (value : T) (c : Channel T) → IsSound c → All IsSound (try_send value c)
  unfolding try_send
  try_send-IsSound value c f =
      All-if IsSound (c.state == wait) _ _
        (λ b. record {
          at = IsAt-sig c.receiver c.state c.receiver_ptr (ground arith) f.at;
          one =
              ap length (snoc c value)
              ∙ ground (arith, b, length-append (under_way c) (value ∷ []), f.one);
          offered = f.offered;
          whole = f.whole;
          in_order =
              ap (λ (values : List T). values ++ value ∷ []) f.in_order
              ∙ append_assoc c.received (under_way c) (value ∷ [])
              ∙ ap (λ (values : List T). c.received ++ values) (sym (snoc c value));
        })
        (λ b. tt)

  -- The one thread behind its exchange has the pointer: the receiver waits for the promise.
  is_getting :
      (r : Receiver T) (c : Channel T) (value : T) (others : List T)
      → c.receiver ≡ r
      → c.receiver_ptr ≡ true
      → c.sending ≡ value ∷ others
      → IsSound c
      → r ≡ getting
  is_getting outside c value others e p g f = absurd (ground (arith, p, (placed outside c e f).1))
  is_getting entering c value others e p g f = absurd (ground (arith, p, (placed entering c e f).1))
  is_getting offering c value others e p g f = absurd (ground (arith, p, (placed offering c e f).1))
  is_getting getting c value others e p g f = refl
  is_getting (clearing result) c value others e p g f =
      absurd (ground (arith, e, g, f.one, length-append (value_of c.promise) (value ∷ others)))
  is_getting (leaving result) c value others e p g f =
      absurd (ground (arith, p, (placed (leaving result) c e f).1))

  put-IsSound :
      (promise : Option T) (c : Channel T) (value : T)
      → c.promise ≡ promise
      → c.sending ≡ value ∷ []
      → c.receiver ≡ getting
      → IsSound c
      → IsSound (put value promise (record c { sending = [] }))
  unfolding put
  put-IsSound none c value g h e f = record {
    at = f.at;
    one = ground (arith, e, g, h, f.one);
    offered = ground (arith, e);
    whole = f.whole;
    in_order = ground (arith, e, g, h, f.in_order);
  }
  put-IsSound (some other) c value g h e f = absurd (ground (arith, e, g, h, f.one))

  pub deliver-IsSound :
      (sending : List T) (i : ℕ) (c : Channel T)
      → c.sending ≡ sending
      → IsSound c
      → All IsSound (deliver (get_elem? sending i) (take i sending ++ drop (suc i) sending) c)
  unfolding deliver
  deliver-IsSound [] i c h f = tt
  deliver-IsSound (value ∷ []) zero c h f =
      All-if IsSound c.receiver_ptr _ _
        (λ b. put-IsSound c.promise c value refl h (is_getting c.receiver c value [] refl b h f) f)
        (λ b. tt)
  deliver-IsSound (value ∷ []) (suc i) c h f = tt
  deliver-IsSound (value ∷ other ∷ others) i c h f = absurd (
      ground (
        arith,
        h,
        f.one,
        length-append (held_by c.receiver) (value_of c.promise ++ c.sending),
        length-append (value_of c.promise) c.sending,
      ))

  Step-IsSound : {c d : Channel T} → Step c d → IsSound c → IsSound d
  unfolding set_value
  Step-IsSound {c} (receives e) f = subst (All IsSound) e (recv-IsSound c.receiver c refl f)
  Step-IsSound {c} (sends value e) f = subst (All IsSound) e (try_send-IsSound value c f)
  Step-IsSound {c} (sets i e) f = subst (All IsSound) e (deliver-IsSound c.sending i c refl f)

  pub init-IsSound : IsSound (init {T = T})
  init-IsSound = record {
    at = (refl, refl);
    one = refl;
    offered = omega arith;
    whole = refl;
    in_order = refl;
  }

  Reach-IsSound : {c : Channel T} → Reach init c → IsSound c
  Reach-IsSound here = init-IsSound
  Reach-IsSound (later r st) = Step-IsSound st (Reach-IsSound r)

  -- With one thread that receives and any that send, whatever their order: the signals received and
  -- then those under way are the signals sent, in the order of the exchanges, at most one is under
  -- way, and no promise is given a second value.
  pub channel-one_place :
      (c : Channel T)
      → Reach init c
      → (c.sent ≡ c.received ++ under_way c) × ((length (under_way c) ≤ 1) × (c.broken ≡ false))
  channel-one_place c r = let f = Reach-IsSound r in (f.in_order, (ground (arith, f.one), f.whole))
