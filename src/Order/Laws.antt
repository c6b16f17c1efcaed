-- ===== src/Order/Laws.antt =====
-- The order of sort keys is total, transitive, and antisymmetric.
use package.text.Mathlib.TextEquality.{Char-path}
use standards_control_plane.Prelude.{List, String, [], ap, arith, false, refl, true, ℕ, ◌∷◌, ◌≡◌}
use standards_control_plane.Prelude.Int.{leb_ℤ, negsuc, pos, ℤ}
use standards_control_plane.Order.{
  Atom, Key, codes, int, leb_atom, leb_codes, leb_key, leb_text, text,
}

pub leb_codes-total : (xs ys : List ℕ) → leb_codes xs ys ≡ false → leb_codes ys xs ≡ true
unfolding leb_codes
leb_codes-total [] ys h = cc
leb_codes-total (x ∷ xs) [] h = refl
leb_codes-total (x ∷ xs) (y ∷ ys) h = ground (arith, leb_codes-total xs ys)

pub leb_codes_trans :
    (xs ys zs : List ℕ) → leb_codes xs ys ≡ true → leb_codes ys zs ≡ true → leb_codes xs zs ≡ true
unfolding leb_codes
leb_codes_trans [] ys zs h k = refl
leb_codes_trans (x ∷ xs) [] zs h k = cc
leb_codes_trans (x ∷ xs) (y ∷ ys) [] h k = cc
leb_codes_trans (x ∷ xs) (y ∷ ys) (z ∷ zs) h k = ground (arith, leb_codes_trans xs ys zs)

pub leb_codes_antisymm :
    (xs ys : List ℕ) → leb_codes xs ys ≡ true → leb_codes ys xs ≡ true → xs ≡ ys
unfolding leb_codes
leb_codes_antisymm [] [] h k = refl
leb_codes_antisymm [] (y ∷ ys) h k = cc
leb_codes_antisymm (x ∷ xs) [] h k = cc
leb_codes_antisymm (x ∷ xs) (y ∷ ys) h k = ground (arith, leb_codes_antisymm xs ys)

head-eq : {a b : ℕ} {xs ys : List ℕ} → a ∷ xs ≡ b ∷ ys → a ≡ b
head-eq e = cc

tail-eq : {a b : ℕ} {xs ys : List ℕ} → a ∷ xs ≡ b ∷ ys → xs ≡ ys
tail-eq e = cc

codes_injective : (s t : String) → codes s ≡ codes t → s ≡ t
unfolding codes
codes_injective String.[] String.[] h = refl
codes_injective String.[] (String.◌∷◌ c t) h = cc
codes_injective (String.◌∷◌ c s) String.[] h = cc
codes_injective (String.◌∷◌ c s) (String.◌∷◌ d t) h =
    λ i. String.◌∷◌ (Char-path c d (head-eq h) i) (codes_injective s t (tail-eq h) i)

leb_ℤ-total : (a b : ℤ) → leb_ℤ a b ≡ false → leb_ℤ b a ≡ true
leb_ℤ-total (pos m) (pos n) h = ground arith
leb_ℤ-total (pos m) (negsuc n) h = refl
leb_ℤ-total (negsuc m) (pos n) h = cc
leb_ℤ-total (negsuc m) (negsuc n) h = ground arith

leb_ℤ-trans : (a b c : ℤ) → leb_ℤ a b ≡ true → leb_ℤ b c ≡ true → leb_ℤ a c ≡ true
leb_ℤ-trans (pos m) (pos n) (pos k) h l = ground arith
leb_ℤ-trans (negsuc m) (negsuc n) (negsuc k) h l = ground arith
leb_ℤ-trans _ _ _ h l = ground arith

pub leb_ℤ-antisymm : (a b : ℤ) → leb_ℤ a b ≡ true → leb_ℤ b a ≡ true → a ≡ b
leb_ℤ-antisymm (pos m) (pos n) h k = ground arith
leb_ℤ-antisymm (negsuc m) (negsuc n) h k = ground arith
leb_ℤ-antisymm _ _ h k = cc

pub leb_atom-total : (x y : Atom) → leb_atom x y ≡ false → leb_atom y x ≡ true
unfolding leb_atom
leb_atom-total (int a) (int b) h = leb_ℤ-total a b h
leb_atom-total (text s) (text t) h = leb_codes-total (codes s) (codes t) h
leb_atom-total (int a) (text t) h = cc
leb_atom-total (text s) (int b) h = refl

pub leb_atom_trans :
    (x y z : Atom) → leb_atom x y ≡ true → leb_atom y z ≡ true → leb_atom x z ≡ true
unfolding leb_atom
leb_atom_trans (int a) (int b) (int c) h k = leb_ℤ-trans a b c h k
leb_atom_trans (text s) (text t) (text u) h k = leb_codes_trans (codes s) (codes t) (codes u) h k
leb_atom_trans (int a) _ (text u) h k = refl
leb_atom_trans (int a) (text t) (int c) h k = cc
leb_atom_trans (text s) (int b) _ h k = cc
leb_atom_trans (text s) (text t) (int c) h k = cc

pub leb_atom_antisymm : (x y : Atom) → leb_atom x y ≡ true → leb_atom y x ≡ true → x ≡ y
unfolding leb_atom
leb_atom_antisymm (int a) (int b) h k = ap int (leb_ℤ-antisymm a b h k)
leb_atom_antisymm (text s) (text t) h k =
    ap text (codes_injective s t (leb_codes_antisymm (codes s) (codes t) h k))
leb_atom_antisymm (int a) (text t) h k = cc
leb_atom_antisymm (text s) (int b) h k = cc

-- Of two keys one is at most the other.
pub leb_key-total : (xs ys : Key) → leb_key xs ys ≡ false → leb_key ys xs ≡ true
unfolding leb_key
leb_key-total [] ys h = cc
leb_key-total (x ∷ xs) [] h = refl
leb_key-total (x ∷ xs) (y ∷ ys) h =
    unfold leb_key in ground (arith, leb_atom-total x y, leb_atom-total y x, leb_key-total xs ys)

pub leb_key_trans :
    (xs ys zs : Key) → leb_key xs ys ≡ true → leb_key ys zs ≡ true → leb_key xs zs ≡ true
unfolding leb_key
leb_key_trans [] ys zs h k = refl
leb_key_trans (x ∷ xs) [] zs h k = cc
leb_key_trans (x ∷ xs) (y ∷ ys) [] h k = ground arith
leb_key_trans (x ∷ xs) (y ∷ ys) (z ∷ zs) h k = ground (
  arith,
  leb_atom_trans x y z,
  leb_atom_trans z y x,
  leb_atom_trans y z x,
  leb_atom_trans z x y,
  leb_key_trans xs ys zs,
)

pub leb_key_antisymm : (xs ys : Key) → leb_key xs ys ≡ true → leb_key ys xs ≡ true → xs ≡ ys
unfolding leb_key
leb_key_antisymm [] [] h k = refl
leb_key_antisymm [] (y ∷ ys) h k = cc
leb_key_antisymm (x ∷ xs) [] h k = cc
leb_key_antisymm (x ∷ xs) (y ∷ ys) h k =
    ground (arith, leb_atom_antisymm x y, leb_key_antisymm xs ys)

pub leb_text-total : (s t : String) → leb_text s t ≡ false → leb_text t s ≡ true
unfolding leb_text
leb_text-total s t h = leb_codes-total (codes s) (codes t) h

pub leb_text_trans :
    (s t u : String) → leb_text s t ≡ true → leb_text t u ≡ true → leb_text s u ≡ true
unfolding leb_text
leb_text_trans s t u h k = leb_codes_trans (codes s) (codes t) (codes u) h k

pub leb_text_antisymm : (s t : String) → leb_text s t ≡ true → leb_text t s ≡ true → s ≡ t
unfolding leb_text
leb_text_antisymm s t h k = codes_injective s t (leb_codes_antisymm (codes s) (codes t) h k)
