-- ===== src/Actor/Drained.antt =====
-- Every mail is called, in the order in which the mailbox took them.
use vee.Base.{
  ℕ, ◌≤◌, ◌≡◌, refl, sym, ap, ◌∙◌, Option, none, List, [], ◌∷◌, ◌++◌, arith, length, append-nil,
}
use vee.Base.Word.{int_max}
use vee.Actor.{reserved, Worker, receiving, Actor, init, Reach}
use vee.Actor.Sound.{in_hand, IsSound, init-IsSound}
use vee.Actor.Sound.Orders.{Reach-IsSound}

module _ {ℓ} {A : Type ℓ} where
  -- No call of `request` is behind the first step of its `enqueue`, the worker waits, and no signal
  -- is on its way to it.
  pub record IsQuiet (s : Actor A) : Type ℓ where
    pub written : s.writer ≡ none
    pub counting : s.requests.counting ≡ 0
    pub exchanging : s.requests.exchanging ≡ 0
    pub signalling : s.requests.signalling ≡ 0
    pub waits : s.worker ≡ receiving
    pub silent : s.signal ≡ none

  nil-of_length : (items : List A) → length items ≡ 0 → items ≡ []
  nil-of_length [] h = refl
  nil-of_length (x ∷ items) h = absurd (omega (arith, h))

  pub sound-drained :
      (s : Actor A)
      → IsSound s
      → IsQuiet s
      → (s.mailbox ≡ []) × ((s.mailbox_counter ≡ 0) × (s.done ≡ s.accepted))
  sound-drained s f q = (empty, (idle_counter, all_done))
    where
      idle_counter : s.mailbox_counter ≡ 0
      idle_counter = ground (arith, q.exchanging, q.signalling, q.waits, q.silent, f.tokens)

      empty : s.mailbox ≡ []
      empty = nil-of_length s.mailbox (ground (arith, q.counting, q.waits, idle_counter, f.counted))

      all_done : s.done ≡ s.accepted
      all_done = sym (
          f.in_order
          ∙ ap (λ (w : Worker A). s.done ++ (in_hand w ++ (s.mailbox ++ reserved s.writer))) q.waits
          ∙ ap (λ (items : List A). s.done ++ (items ++ reserved s.writer)) empty
          ∙ ap (λ (w : Option A). s.done ++ reserved w) q.written
          ∙ append-nil s.done)

  -- When a new actor has come to rest, whatever the order of the steps before, its mailbox and its
  -- counter are empty, and the mails that were called are those that were accepted, in that order.
  pub rest-drained :
      (n : ℕ) (s : Actor A)
      → n ≤ int_max
      → Reach (init n) s
      → IsQuiet s
      → (s.mailbox ≡ []) × ((s.mailbox_counter ≡ 0) × (s.done ≡ s.accepted))
  rest-drained n s h r q = sound-drained s (Reach-IsSound (init-IsSound n h) r) q
