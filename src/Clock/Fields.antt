-- ===== src/Clock/Fields.antt =====
-- Texts made of fields of digits: the first field that differs orders them.
use canebot_projector_repo.Base.{
  ℕ, ◌≤◌, ◌<◌, ◌≡◌, refl, sym, ap, ◌∙◌, ◌⊎◌, inl, inr, true, false, List, [], ◌∷◌, ◌++◌, ltb,
  ltb→lt, arith, Bool-cases,
}
use canebot_projector_repo.Clock.Text.{bytes_lt, pad2, pad3, pad4}

pub bytes_lt_same : (p u v : List ℕ) → bytes_lt (p ++ u) (p ++ v) ≡ bytes_lt u v
unfolding bytes_lt
bytes_lt_same [] u v = refl
bytes_lt_same (x ∷ p) u v = ground (arith, bytes_lt_same p u v)

pub pad2-lt :
    (a b : ℕ) (u v : List ℕ) → a < b → b < 100 → bytes_lt (pad2 a ++ u) (pad2 b ++ v) ≡ true
unfolding pad2 bytes_lt
pad2-lt a b u v h k = ground arith

pub pad3-lt :
    (a b : ℕ) (u v : List ℕ) → a < b → b < 1000 → bytes_lt (pad3 a ++ u) (pad3 b ++ v) ≡ true
unfolding pad3 bytes_lt
pad3-lt a b u v h k = ground arith

pub pad4-lt :
    (a b : ℕ) (u v : List ℕ) → a < b → b < 10000 → bytes_lt (pad4 a ++ u) (pad4 b ++ v) ≡ true
unfolding pad4 bytes_lt
pad4-lt a b u v h k = ground arith

-- Of two fields in front of two texts: the first is smaller, or they are equal and the texts decide.
abbrev pub Precedes : ℕ → ℕ → List ℕ → List ℕ → Type 0
Precedes a b u v = (a < b) ⊎ ((a ≡ b) × (bytes_lt u v ≡ true))

pub separated : (x : ℕ) (u v : List ℕ) → bytes_lt u v ≡ true → bytes_lt (x ∷ u) (x ∷ v) ≡ true
separated x u v h = bytes_lt_same (x ∷ []) u v ∙ h

pub field :
    (p : ℕ → List ℕ) (a b : ℕ) (u v : List ℕ)
    → (a < b → bytes_lt (p a ++ u) (p b ++ v) ≡ true)
    → Precedes a b u v
    → bytes_lt (p a ++ u) (p b ++ v) ≡ true
field p a b u v lt (inl h) = lt h
field p a b u v lt (inr (e, h)) =
    ap (λ n. bytes_lt (p n ++ u) (p b ++ v)) e ∙ bytes_lt_same (p b) u v ∙ h

-- A field decides if it is smaller; where it cannot be greater, what is behind it decides otherwise.
pub decide : (a b : ℕ) (u v : List ℕ) → a ≤ b → (a ≡ b → bytes_lt u v ≡ true) → Precedes a b u v
decide a b u v le h = elim (Bool-cases (ltb a b)) [
  | inl e ↦ inl (ltb→lt _ _ e)
  | inr e ↦ let same : a ≡ b = ground (arith, e, le) in inr (same, h same)
]

pub bytes_lt_irrefl : (u : List ℕ) → bytes_lt u u ≡ false
unfolding bytes_lt
bytes_lt_irrefl [] = refl
bytes_lt_irrefl (x ∷ u) = ground (arith, bytes_lt_irrefl u)

pub bytes_lt_asym : (u v : List ℕ) → bytes_lt u v ≡ true → bytes_lt v u ≡ false
unfolding bytes_lt
bytes_lt_asym [] [] h = refl
bytes_lt_asym [] (y ∷ v) h = refl
bytes_lt_asym (x ∷ u) [] h = ground (arith, h)
bytes_lt_asym (x ∷ u) (y ∷ v) h = ground (arith, h, bytes_lt_asym u v)

-- A function to texts that is strictly monotone at two numbers orders their texts as the numbers.
pub monotone :
    (text : ℕ → List ℕ) (a b : ℕ)
    → (a < b → bytes_lt (text a) (text b) ≡ true)
    → (b < a → bytes_lt (text b) (text a) ≡ true)
    → bytes_lt (text a) (text b) ≡ ltb a b
monotone text a b lt gt = elim (Bool-cases (ltb a b)) [
  | inl e ↦ lt (ltb→lt _ _ e) ∙ sym e
  | inr e ↦ elim (Bool-cases (ltb b a)) [
    | inl f ↦ bytes_lt_asym (text b) (text a) (gt (ltb→lt _ _ f)) ∙ sym e
    | inr f ↦
        let same : a ≡ b = ground (arith, e, f) in
        ap (λ n. bytes_lt (text a) (text n)) (sym same) ∙ bytes_lt_irrefl (text a) ∙ sym e
  ]
]
