-- ===== src/Texts.antt =====
-- Texts as packages/billing and the candidate's server read them: `trim`, emptiness, and the number
-- that stands for a text where it is an id.
use Prim.Native.Char.{code}
use Prim.Native.String.{String}
use prelude.Base.{
  ==→eq, ==-refl, Bool-cases, inl, inr, ℕ, ◌+◌, ◌*◌, Bool, true, false, [], ◌∷◌, ◌==◌, ◌||◌, ◌&&◌,
  if◌then◌else◌, leb, ◌≡◌, refl, All,
}
use prelude.Ledger.Schema.{Text}
use prelude.Ledger.Purchase.{same_text}

-- The units of an ASCII text.
abbrev pub codes : String → Text
codes String.[] = []
codes (String.◌∷◌ c s) = code c ∷ codes s

-- The white space and the line terminators of `String.prototype.trim`.
abbrev pub is_space : ℕ → Bool
is_space c =
    (leb 9 c && leb c 13)
    || c == 32
    || c == 160
    || c == 5760
    || (leb 8192 c && leb c 8202)
    || c == 8232
    || c == 8233
    || c == 8239
    || c == 8287
    || c == 12288
    || c == 65279

abbrev pub is_empty : Text → Bool
is_empty [] = true
is_empty (c ∷ t) = false

unfoldable pub trim_start : Text → Text
trim_start [] = []
trim_start (c ∷ t) = let rest = trim_start t in if is_space c then rest else c ∷ t

-- A text without its last units that pass a test.
unfoldable pub drop_end : (ℕ → Bool) → Text → Text
drop_end p [] = []
drop_end p (c ∷ t) = let rest = drop_end p t in if p c && is_empty rest then [] else c ∷ rest

unfoldable pub trim : Text → Text
unfolding trim_start drop_end
trim t = drop_end is_space (trim_start t)

-- The key of an id: different texts have different keys.
unfoldable pub key_of : Text → ℕ
key_of [] = 0
key_of (c ∷ t) = 1 + c + 65536 * key_of t

abbrev pub IsWord : Text → Type 0
IsWord t = All (λ c. is_space c ≡ false) t

trim_start-word : (t : Text) → IsWord t → trim_start t ≡ t
unfolding trim_start
trim_start-word [] w = refl
trim_start-word (c ∷ t) w = rw w.0 refl

drop_end-word : (t : Text) → IsWord t → drop_end is_space t ≡ t
unfolding drop_end
drop_end-word [] w = refl
drop_end-word (c ∷ t) w = rw (w.0, drop_end-word t w.1) refl

-- A text without white space is its own `trim`.
pub trim-word : (t : Text) → IsWord t → trim t ≡ t
unfolding trim
trim-word t w = rw (trim_start-word t w) (drop_end-word t w)

pub same_text→eq : (s t : Text) → same_text s t ≡ true → s ≡ t
unfolding same_text
same_text→eq [] [] h = refl
same_text→eq [] (b ∷ t) h = cc
same_text→eq (a ∷ s) [] h = cc
same_text→eq (a ∷ s) (b ∷ t) h = elim (Bool-cases (a == b)) [
  | inl e ↦
      let first : a ≡ b = ==→eq a b e in
      let rest : same_text s t ≡ true = rw e at h in let tail : s ≡ t = same_text→eq s t rest in cc
  | inr e ↦ let no : false ≡ true = rw e at h in cc
]

pub same_text_refl : (t : Text) → same_text t t ≡ true
unfolding same_text
same_text_refl [] = refl
same_text_refl (c ∷ t) = rw (==-refl c) (same_text_refl t)
