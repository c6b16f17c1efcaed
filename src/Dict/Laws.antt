-- ===== src/Dict/Laws.antt =====
-- The laws of `get`, `put` and `update`.
use standards_control_plane.Prelude.{
  All, Bool-cases, Option, String, [], arith, eq_iff, eq_refl, false, if◌then◌else◌, inl, inr, none,
  refl, some, subst, sym, ◌==◌, ◌||◌, ◌∙◌, ◌∷◌, ◌≡◌,
}
use standards_control_plane.Dict.{Dict, IsDict, contains, get, put, update, values}

module _ {ℓ} {V : Type ℓ} where
  pub get-put :
      (k j : String) (v : V) (d : Dict V) → get j (put k v d) ≡ (if k == j then some v else get j d)
  unfolding get put
  get-put k j v [] = refl
  get-put k j v ((i, w) ∷ d) = ground (arith, eq_iff k j, eq_iff i k, eq_iff i j, get-put k j v d)

  pub get-put_self : (k : String) (v : V) (d : Dict V) → get k (put k v d) ≡ some v
  get-put_self k v d = get-put k k v d ∙ (rw (eq_refl k))

  pub contains-put :
      (k j : String) (v : V) (d : Dict V) → contains j (put k v d) ≡ (k == j || contains j d)
  unfolding contains put
  contains-put k j v [] = refl
  contains-put k j v ((i, w) ∷ d) =
      ground (arith, eq_iff k j, eq_iff i k, eq_iff i j, contains-put k j v d)

  pub contains-get : (k : String) (d : Dict V) → contains k d ≡ false → get k d ≡ none
  unfolding contains get
  contains-get k [] h = refl
  contains-get k ((j, v) ∷ d) h = ground (arith, contains-get k d)

  pub get-contains : (k : String) (d : Dict V) → get k d ≡ none → contains k d ≡ false
  unfolding contains get
  get-contains k [] h = refl
  get-contains k ((j, v) ∷ d) h = ground (arith, get-contains k d)

  pub put-IsDict : (k : String) (v : V) (d : Dict V) → IsDict d → IsDict (put k v d)
  unfolding put contains
  put-IsDict k v [] h = (refl, tt)
  put-IsDict k v ((j, w) ∷ d) h = elim (Bool-cases (j == k)) [
    | inl e ↦ rw e h
    | inr n ↦
        rw n (contains-put k j v d ∙ ground (arith, eq_iff k j, eq_iff j k), put-IsDict k v d h.1)
  ]

  pub update-IsDict : (d e : Dict V) → IsDict d → IsDict (update d e)
  unfolding update
  update-IsDict d [] h = h
  update-IsDict d ((k, v) ∷ e) h = update-IsDict (put k v d) e (put-IsDict k v d h)

  abbrev pub or_else : Option V → Option V → Option V
  or_else none o = o
  or_else (some v) o = some v

  -- The second dict wins.
  pub get-update :
      (k : String) (d e : Dict V) → IsDict e → get k (update d e) ≡ or_else (get k e) (get k d)
  unfolding update get
  get-update k d [] h = refl
  get-update k d ((j, v) ∷ e) h =
      ground (arith, get-update k (put j v d) e, get-put j k v d, eq_iff j k, contains-get j e)

  -- A predicate on values passes from the dict to what it holds.
  pub All-put {κ} :
      (P : String × V → Type κ) (k : String) (v : V) (d : Dict V)
      → P (k, v)
      → All P d
      → All P (put k v d)
  unfolding put
  All-put P k v [] p h = (p, tt)
  All-put P k v ((j, w) ∷ d) p h = elim (Bool-cases (j == k)) [
    | inl e ↦ rw e (subst (λ s. P (s, v)) (sym ((eq_iff j k).0 e)) p, h.1)
    | inr n ↦ rw n (h.0, All-put P k v d p h.1)
  ]

  pub All-get {κ} :
      (P : String × V → Type κ) (k : String) (d : Dict V) {v : V}
      → All P d
      → get k d ≡ some v
      → P (k, v)
  unfolding get
  All-get P k [] h e = cc
  All-get P k ((j, w) ∷ d) {v} h e = elim (Bool-cases (j == k)) [
    | inl s ↦
        let same : w ≡ v = ground arith in
        subst (λ x. P (k, x)) same (subst (λ t. P (t, w)) ((eq_iff j k).0 s) h.0)
    | inr n ↦ All-get P k d h.1 (rw n at e)
  ]

  pub put_same : (k : String) (v : V) (d : Dict V) → get k d ≡ some v → put k v d ≡ d
  unfolding get put
  put_same k v [] h = cc
  put_same k v ((j, w) ∷ d) h = ground (arith, eq_iff j k, put_same k v d)

  get-cons_ne :
      (k j : String) (w : V) (d : Dict V) → (j == k) ≡ false → get k ((j, w) ∷ d) ≡ get k d
  unfolding get
  get-cons_ne k j w d h = rw h

  get-cons_self : (k : String) (w : V) (d : Dict V) → get k ((k, w) ∷ d) ≡ some w
  unfolding get
  get-cons_self k w d = rw (eq_refl k)

  -- What holds of every value that `get` finds holds of every entry.
  pub All-of_get {κ} :
      (P : String × V → Type κ) (d : Dict V)
      → IsDict d
      → ((k : String) (v : V) → get k d ≡ some v → P (k, v))
      → All P d
  All-of_get P [] h f = tt
  All-of_get P ((j, w) ∷ d) h f = (
    f j w (get-cons_self j w d),
    All-of_get P d h.1 λ k v e. f k v (elim (Bool-cases (j == k)) [
      | inl s ↦
          absurd
            (found_not_absent k v d (subst (λ t. contains t d ≡ false) ((eq_iff j k).0 s) h.0) e)
      | inr n ↦ get-cons_ne k j w d n ∙ e
    ]),
  )
    where
      found_not_absent :
          (k : String) (v : V) (e : Dict V) → contains k e ≡ false → get k e ≡ some v → ⊥
      found_not_absent k v e a b = cc (contains-get k e a)

  -- What `get` finds is an entry.
  pub get-of_head : (k : String) (v : V) (d : Dict V) → IsDict ((k, v) ∷ d) → get k d ≡ none
  get-of_head k v d h = contains-get k d h.0

  pub All-values {κ} : (P : V → Type κ) (d : Dict V) → All (λ p. P p.1) d → All P (values d)
  All-values P [] h = tt
  All-values P (p ∷ d) h = (h.0, All-values P d h.1)

  pub All-update {κ} :
      (P : String × V → Type κ) (d e : Dict V) → All P d → All P e → All P (update d e)
  unfolding update
  All-update P d [] hd he = hd
  All-update P d ((k, v) ∷ e) hd he = All-update P (put k v d) e (All-put P k v d he.0 hd) he.1

  pub contains-update :
      (k : String) (d e : Dict V) → contains k (update d e) ≡ (contains k e || contains k d)
  unfolding update contains
  contains-update k d [] = refl
  contains-update k d ((j, v) ∷ e) =
      ground (arith, contains-update k (put j v d) e, contains-put j k v d)
