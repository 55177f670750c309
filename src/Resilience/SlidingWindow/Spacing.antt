-- ===== src/Resilience/SlidingWindow/Spacing.antt =====
-- The requests within the length of a sliding window.
use microservices_base.Prelude.{
  ℕ, zero, suc, ◌+◌, ◌≤◌, ◌<◌, ◌≡◌, refl, sym, ap, ◌∙◌, subst, String, none, some, List, [], ◌∷◌,
  ◌++◌, arith, length, get_elem?, length-append, if◌then◌else◌, Bool-cases, inl, inr, ◌⊎◌,
}
use microservices_base.Prelude.Int.{ℤ, pos, ltb_ℤ, ◌+ℤ◌, ◌-ℤ◌, ◌≤ℤ◌}
use microservices_base.Resilience.SlidingWindow.{
  SlidingWindow, from_first_valid, prune_old_requests, decide,
}

-- Of any `limit + 1` grants in a row, the last is at least a window after the first.
unfoldable pub Spaced : ℕ → ℤ → List ℤ → Type 0
Spaced limit window l =
    (i : ℕ) (a b : ℤ)
    → get_elem? l i ≡ some a
    → get_elem? l (i + limit) ≡ some b
    → (a +ℤ window) ≤ℤ b

abbrev pub AllUntil : ℤ → ℤ → List ℤ → Type 0
AllUntil window now [] = Unit
AllUntil window now (t ∷ l) = ((t +ℤ window) ≤ℤ now) × AllUntil window now l

AllUntil-later :
    (window now later : ℤ) (l : List ℤ)
    → now ≤ℤ later
    → AllUntil window now l
    → AllUntil window later l
AllUntil-later window now later [] h a = tt
AllUntil-later window now later (t ∷ l) h a =
    (ground arith, AllUntil-later window now later l h a.1)

AllUntil-append :
    (window now : ℤ) (l k : List ℤ)
    → AllUntil window now l
    → AllUntil window now k
    → AllUntil window now (l ++ k)
AllUntil-append window now [] k a b = b
AllUntil-append window now (t ∷ l) k a b = (a.0, AllUntil-append window now l k a.1 b)

AllUntil-get :
    (window now : ℤ) (l : List ℤ) (i : ℕ) (a : ℤ)
    → AllUntil window now l
    → get_elem? l i ≡ some a
    → (a +ℤ window) ≤ℤ now
AllUntil-get window now [] i a h e = cc e
AllUntil-get window now (t ∷ l) zero a h e =
    let same : t ≡ a = cc e in subst (λ x. (x +ℤ window) ≤ℤ now) same h.0
AllUntil-get window now (t ∷ l) (suc i) a h e = AllUntil-get window now l i a h.1 e

-- What pruning drops is outside the window.
pruned :
    (window now : ℤ) (l : List ℤ)
    → (dropped : List ℤ) × (l ≡ dropped ++ from_first_valid (now -ℤ window) l)
      × AllUntil window now dropped
unfolding from_first_valid
pruned window now [] = ([], refl, tt)
pruned window now (t ∷ l) = elim (Bool-cases (ltb_ℤ (now -ℤ window) t)) [
  | inl valid ↦ ([], rw valid refl, tt)
  | inr old ↦
      let (dropped, whole, before) = pruned window now l in
      (t ∷ dropped, rw old (ap (◌∷◌ t) whole), (ground arith, before))
]

module _ {A : Type 0} where
  get_left : (xs ys : List A) (i : ℕ) → i < length xs → get_elem? (xs ++ ys) i ≡ get_elem? xs i
  get_left [] ys i h = absurd (omega arith)
  get_left (x ∷ xs) ys zero h = refl
  get_left (x ∷ xs) ys (suc i) h = get_left xs ys i (omega arith)

  get_none : (xs : List A) (i : ℕ) → length xs ≤ i → get_elem? xs i ≡ none
  get_none [] i h = refl
  get_none (x ∷ xs) zero h = absurd (omega arith)
  get_none (x ∷ xs) (suc i) h = get_none xs i (omega arith)

  get_last : (xs : List A) (x : A) → get_elem? (xs ++ x ∷ []) (length xs) ≡ some x
  get_last [] x = refl
  get_last (y ∷ xs) x = get_last xs x

  pub append_assoc : (xs ys zs : List A) → xs ++ (ys ++ zs) ≡ (xs ++ ys) ++ zs
  append_assoc [] ys zs = refl
  append_assoc (x ∷ xs) ys zs = ap (◌∷◌ x) (append_assoc xs ys zs)

-- One more grant, when fewer than `limit` of the earlier ones are within the window.
Spaced-concat :
    (limit : ℕ) (window now : ℤ) (out kept : List ℤ)
    → Spaced limit window (out ++ kept)
    → AllUntil window now out
    → length kept < limit
    → Spaced limit window ((out ++ kept) ++ now ∷ [])
unfolding Spaced
Spaced-concat limit window now out kept spaced before few i a b ea eb =
    let g = out ++ kept in
    let long = length-append out kept in
    elim (order (i + limit) (length g)) [
      | inl within ↦
          spaced i a b (sym (get_left g (now ∷ []) i (omega arith)) ∙ ea)
            (sym (get_left g (now ∷ []) (i + limit) within) ∙ eb)
      | inr e ↦ elim e [
        | inl last ↦
            let is_now : now ≡ b =
              cc (sym (get_last g now) ∙ ap (get_elem? (g ++ now ∷ [])) (sym last) ∙ eb) in
            let inner =
              sym (get_left out kept i (omega arith))
              ∙ sym (get_left g (now ∷ []) i (omega arith))
              ∙ ea in
            subst (λ x. (a +ℤ window) ≤ℤ x) is_now (AllUntil-get window now out i a before inner)
        | inr beyond ↦
            cc
              (get_none (g ++ now ∷ []) (i + limit) (omega (arith, length-append g (now ∷ []))), eb)
      ]
    ]
  where
    order : (x y : ℕ) → (x < y) ⊎ (x ≡ y) ⊎ (y < x)
    order x y = ground arith

-- The grants so far, of a limiter: those in its list, and others that left the window.
pub record Grants (limit : ℕ) (window last : ℤ) (g : List ℤ) (sw : SlidingWindow) : Type 0 where
  pub out : List ℤ
  pub split : g ≡ out ++ sw.requests
  pub before : AllUntil window last out
  pub spaced : Spaced limit window g
  pub limit_eq : sw.limit ≡ pos limit
  pub window_eq : sw.window ≡ window

pub prune-Grants :
    (limit : ℕ) (window last now : ℤ) (g : List ℤ) (sw : SlidingWindow)
    → last ≤ℤ now
    → Grants limit window last g sw
    → Grants limit window now g (prune_old_requests now sw)
unfolding prune_old_requests
prune-Grants limit window last now g sw h v =
    let (dropped, whole, before) = pruned sw.window now sw.requests in
    record {
      out = v.out ++ dropped;
      split =
          v.split
          ∙ ap (λ x. v.out ++ x) whole
          ∙ append_assoc v.out dropped (from_first_valid (now -ℤ sw.window) sw.requests);
      before =
          AllUntil-append window now v.out dropped (AllUntil-later window last now v.out h v.before)
            (subst (λ w. AllUntil w now dropped) v.window_eq before);
      spaced = v.spaced;
      limit_eq = v.limit_eq;
      window_eq = v.window_eq;
    }

-- What a decision makes of the grants.
pub decide-Grants :
    (limit : ℕ) (window now : ℤ) (key : String) (g : List ℤ) (sw : SlidingWindow)
    → Grants limit window now g sw
    → Grants limit window now
        (if (decide now key sw).1.allowed then g ++ now ∷ [] else g)
        (decide now key sw).0
unfolding decide
decide-Grants limit window now key g sw v =
    elim (Bool-cases (ltb_ℤ (pos (length sw.requests)) sw.limit)) [
      | inl free ↦
          let few : length sw.requests < limit = ground (arith, v.limit_eq) in
          rw (decide, free)
            (record {
              out = v.out;
              split =
                  ap (λ x. x ++ now ∷ []) v.split ∙ sym (append_assoc v.out sw.requests (now ∷ []));
              before = v.before;
              spaced =
                  subst (λ x. Spaced limit window (x ++ now ∷ [])) (sym v.split)
                    (Spaced-concat limit window now v.out sw.requests
                      (subst (Spaced limit window) v.split v.spaced) v.before few);
              limit_eq = v.limit_eq;
              window_eq = v.window_eq;
            })
      | inr full ↦
          rw (decide, full)
            (record {
              out = v.out;
              split = v.split;
              before = v.before;
              spaced = v.spaced;
              limit_eq = v.limit_eq;
              window_eq = v.window_eq;
            })
    ]
