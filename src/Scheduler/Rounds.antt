-- ===== src/Scheduler/Rounds.antt =====
-- A scheduler asks the actors in turn, until one takes the mail.
use native.Mathlib.Nat.{mod-add-mod, add-mod_right, mod-eq_of_lt, mod-lt}
use vee.Base.{
  ℕ, zero, suc, ◌+◌, ◌-◌, ◌%◌, ◌^◌, ◌≤◌, ◌<◌, ◌≡◌, ◌≢◌, inl, inr, Bool-cases, refl, sym, ap, ◌∙◌,
  Bool, true, false, Option, none, some, List, [], ◌∷◌, ◌==◌, leb, arith, length, length-set,
  get_elem?, set,
}
use vee.Base.Word.{increment}
use vee.Scheduler.{
  Group, at, ask_actor, round, Scheduler, remainder, get_current_actor_index, with_actor, request,
}

-- The counter comes to every index of a group.
turn : (c n j : ℕ) → j < n → (d : ℕ) × ((d < n) × ((c + d) % n ≡ j))
turn c n j h = elim (Bool-cases (leb (c % n) j)) [
  | inl e ↦ (
    j - c % n,
    (
      omega (arith, h),
      sym (mod-add-mod c n (j - c % n))
          ∙ ap (λ k. k % n) {x = c % n + (j - c % n)} {y = j} (ground arith)
          ∙ mod-eq_of_lt h,
    ),
  )
  | inr e ↦ (
    j + n - c % n,
    (
      ground (arith, h),
      sym (mod-add-mod c n (j + n - c % n))
          ∙ ap (λ k. k % n) {x = c % n + (j + n - c % n)} {y = j + n} (ground (arith, inside))
          ∙ add-mod_right j n
          ∙ mod-eq_of_lt h,
    ),
  )
]
  where
    inside : c % n < n
    inside = omega (arith, h)

module _ {ℓ} {A : Type ℓ} where
  get_elem?-set_ne :
      (xs : List A) (i j : ℕ) (v : A) → i ≢ j → get_elem? (set xs i v) j ≡ get_elem? xs j
  get_elem?-set_ne [] i j v ne = refl
  get_elem?-set_ne (x ∷ xs) zero zero v ne = absurd (ne refl)
  get_elem?-set_ne (x ∷ xs) zero (suc j) v ne = refl
  get_elem?-set_ne (x ∷ xs) (suc i) zero v ne = refl
  get_elem?-set_ne (x ∷ xs) (suc i) (suc j) v ne = get_elem?-set_ne xs i j v (λ e. ne (ap suc e))

  get_elem?-lt : (xs : List A) (i : ℕ) → i < length xs → (x : A) × (get_elem? xs i ≡ some x)
  get_elem?-lt [] i h = absurd (omega (arith, h))
  get_elem?-lt (x ∷ xs) zero h = (x, refl)
  get_elem?-lt (x ∷ xs) (suc i) h = get_elem?-lt xs i (omega (arith, h))

  get_elem?-some : (xs : List A) (i : ℕ) (x : A) → get_elem? xs i ≡ some x → i < length xs
  get_elem?-some [] i x e = absurd (ground (arith, e))
  get_elem?-some (y ∷ xs) zero x e = omega arith
  get_elem?-some (y ∷ xs) (suc i) x e = omega (arith, get_elem?-some xs i x e)

module _ {ℓ κ} {A : Type ℓ} {M : Type κ} (ask : M → A → Bool × A × M) where
  -- An actor that takes every mail, wherever it stands in a group.
  pub record Takes (s : Scheduler A) (j : ℕ) : Type (ℓ ⊔ κ) where
    pub actor : A
    pub stands : get_elem? s.actor_group.actor_pointers j ≡ some actor
    pub takes : (mail : M) → (ask mail actor).0 ≡ true

  -- The group has the size that it says, the counter has not wrapped around, and it comes to an
  -- actor that takes the mail in `d` rounds.
  record Turn (s : Scheduler A) (d : ℕ) : Type (ℓ ⊔ κ) where
    j : ℕ
    taker : Takes s j
    sized : s.actor_group.size ≡ length s.actor_group.actor_pointers
    due : (s.counter + d) % s.actor_group.size ≡ j
    small : s.actor_group.size < 2 ^ 31
    early : s.counter + d < 2 ^ 31

  index-Turn :
      (s : Scheduler A) (d : ℕ)
      → Turn s d
      → get_current_actor_index ask s
        ≡ (some (s.counter % s.actor_group.size), record s { counter = increment s.counter })
  unfolding get_current_actor_index remainder
  index-Turn s d t =
      ap (λ i. (i, record s { counter = increment s.counter }))
        (ground (
          arith,
          t.sized,
          t.small,
          t.early,
          get_elem?-some s.actor_group.actor_pointers t.j t.taker.actor t.taker.stands,
        ))

  at-some : (g : Group A) (i : ℕ) (x : A) → get_elem? g.actor_pointers i ≡ some x → at g i ≡ some x
  unfolding at
  at-some g i x e = ground (arith, e, get_elem?-some g.actor_pointers i x e)

  round_ne :
      (s : Scheduler A) (d i : ℕ) (mail : M) (actor : A) (t : Turn s d)
      → get_elem? s.actor_group.actor_pointers i ≡ some actor
      → (ask mail actor).0 ≡ false
      → i ≢ t.j
  round_ne s d i mail actor t e refused same = ground (
    arith,
    refused,
    ap (λ o. ask_or o)
        (sym e ∙ ap (λ k. get_elem? s.actor_group.actor_pointers k) same ∙ t.taker.stands),
    t.taker.takes mail,
  )
    where
      ask_or : Option A → Bool
      ask_or none = false
      ask_or (some x) = (ask mail x).0

  -- After a round that did not end the loop.
  next-Turn :
      (s : Scheduler A) (d i : ℕ) (mail : M) (actor left : A)
      → (t : Turn s d) → i ≡ s.counter % s.actor_group.size
      → get_elem? s.actor_group.actor_pointers i ≡ some actor
      → (ask mail actor).0 ≡ false
      → (0 < d) × Turn (with_actor (record s { counter = increment s.counter }) i left) (d - 1)
  next-Turn s d i mail actor left t at_i e refused = (
    pos,
    record {
      j = t.j;
      taker = record {
        actor = t.taker.actor;
        stands = get_elem?-set_ne s.actor_group.actor_pointers i t.j left ne ∙ t.taker.stands;
        takes = t.taker.takes;
      };
      sized = t.sized ∙ sym (length-set s.actor_group.actor_pointers i left);
      due =
          ap (λ k. k % s.actor_group.size) {x = increment s.counter + (d - 1)} {y = s.counter + d}
            (omega (arith, pos, t.early))
          ∙ t.due;
      small = t.small;
      early = omega (arith, pos, t.early);
    },
  )
    where
      ne : i ≢ t.j
      ne = round_ne s d i mail actor t e refused

      pos : 0 < d
      pos = elim (Bool-cases (d == 0)) [
        | inl z ↦ absurd (
            ne (
              at_i
              ∙ ap (λ k. k % s.actor_group.size) {x = s.counter} {y = s.counter + d}
                  (ground (arith, z))
              ∙ t.due))
        | inr p ↦ ground (arith, p)
      ]

  -- The round of such a turn.
  round-Turn :
      (again : Scheduler A → M → Option (Bool × Scheduler A)) (s : Scheduler A) (d : ℕ) (mail : M)
      (actor : A)
      → Turn s d
      → get_elem? s.actor_group.actor_pointers (s.counter % s.actor_group.size) ≡ some actor
      → round ask again (get_current_actor_index ask s) mail
        ≡ ask_actor ask again
            (some actor)
            (s.counter % s.actor_group.size)
            (record s { counter = increment s.counter })
            mail
  unfolding round
  round-Turn again s d mail actor t e =
      ap (λ r. round ask again r mail) (index-Turn s d t)
      ∙ ap
          (λ o.
            ask_actor ask again o (s.counter % s.actor_group.size)
              (record s { counter = increment s.counter }) mail)
          (at-some s.actor_group (s.counter % s.actor_group.size) actor e)

  -- With fuel for the rounds up to that actor, the loop ends with a mail that is taken.
  request-Turn :
      (fuel d : ℕ) (s : Scheduler A) (mail : M)
      → d < fuel
      → Turn s d
      → (last : Scheduler A) × (request ask fuel s mail ≡ some (true, last))
  unfolding request ask_actor
  request-Turn zero d s mail h t = absurd (omega (arith, h))
  request-Turn (suc fuel) d s mail h t =
      let (actor, e) =
        get_elem?-lt s.actor_group.actor_pointers (s.counter % s.actor_group.size)
          (omega (arith, t.sized, inside)) in
      elim (Bool-cases ((ask mail actor).0)) [
        | inl taken ↦ (
          with_actor (record s { counter = increment s.counter }) (s.counter % s.actor_group.size)
              (ask mail actor).1,
          round-Turn (request ask fuel) s d mail actor t e ∙ rw (taken, ask_actor) refl,
        )
        | inr refused ↦
            let (pos, t') = next-Turn s d _ mail actor (ask mail actor).1 t refl e refused in
            let (last, done) =
              request-Turn fuel (d - 1) _ (ask mail actor).2 (omega (arith, h, pos)) t' in
            (last, round-Turn (request ask fuel) s d mail actor t e ∙ rw (refused, ask_actor) done)
      ]
    where
      inside : s.counter % s.actor_group.size < s.actor_group.size
      inside = mod-lt s.counter (
          omega (
            arith,
            t.sized,
            get_elem?-some s.actor_group.actor_pointers t.j t.taker.actor t.taker.stands,
          ))

  -- In a group of fewer than 2 ^ 31 actors whose size is their number, one of which takes every mail:
  -- while the counter and the rounds for all of them are below 2 ^ 31, a request is taken by some
  -- actor within as many rounds as there are actors, whatever the others do with it.
  pub request-Takes :
      (s : Scheduler A) (mail : M) (j : ℕ)
      → Takes s j
      → s.actor_group.size ≡ length s.actor_group.actor_pointers
      → s.counter + s.actor_group.size ≤ 2 ^ 31
      → s.actor_group.size < 2 ^ 31
      → (last : Scheduler A) × (request ask s.actor_group.size s mail ≡ some (true, last))
  request-Takes s mail j taker sized early small =
      let (d, (short, due)) = turn s.counter s.actor_group.size j (
        omega
          (arith, sized, get_elem?-some s.actor_group.actor_pointers j taker.actor taker.stands)) in
      request-Turn s.actor_group.size d s mail short (record {
        j = j;
        taker = taker;
        sized = sized;
        due = due;
        small = small;
        early = omega (arith, short, early);
      })
