-- ===== src/Domain/Names/Slugs.antt =====
-- The shape of a slug.
use democrachat.Prelude.{
  ℕ, ◌≡◌, refl, sym, ap, ◌∙◌, Bool, true, false, ◌&&◌, not, [], ◌∷◌, ◌++◌, arith, if◌then◌else◌,
  All, leb, ◌||◌, nat_beq,
}
use mathlib.Core.List.{append_assoc, append-nil}
use democrachat.Prelude.Std.{Text, is_ascii_alphanumeric, to_ascii_lowercase, is_empty}
use democrachat.Domain.Names.{slug_loop, slugify}

-- What the loop adds to a text, which has something written or not.
abbrev rest_of : Bool → Bool → Text → Text
rest_of written pending [] = []
rest_of written pending (c ∷ s) =
    let word =
      (if pending && written then b'-' ∷ [] else [])
      ++ to_ascii_lowercase c ∷ rest_of true false s in
    let skip = rest_of written true s in if is_ascii_alphanumeric c then word else skip

is_empty-append_one : (s : Text) (c : ℕ) → is_empty (s ++ c ∷ []) ≡ false
is_empty-append_one [] c = refl
is_empty-append_one (x ∷ s) c = refl

slug_loop-rest_of :
    (out : Text) (pending : Bool) (s : Text)
    → slug_loop out pending s ≡ out ++ rest_of (not (is_empty out)) pending s
slug_loop-rest_of out pending [] = sym (append-nil out)
slug_loop-rest_of out pending (c ∷ s) =
    let l : Text = to_ascii_lowercase c ∷ [] in
    let r : Text = rest_of true false s in
    let hyphen : Text = out ++ b'-' ∷ [] in
    ground (
      arith,
      slug_loop-rest_of out true s,
      slug_loop-rest_of (out ++ l) false s,
      slug_loop-rest_of (hyphen ++ l) false s,
      is_empty-append_one out (to_ascii_lowercase c),
      is_empty-append_one hyphen (to_ascii_lowercase c),
      append_assoc out l r,
      append_assoc hyphen l r,
      append_assoc out (b'-' ∷ []) (l ++ r),
    )

lower_alphanumeric :
    (c : ℕ)
    → is_ascii_alphanumeric c ≡ true
    → (is_ascii_alphanumeric (to_ascii_lowercase c) ≡ true)
      × (to_ascii_lowercase (to_ascii_lowercase c) ≡ to_ascii_lowercase c)
unfolding is_ascii_alphanumeric to_ascii_lowercase
lower_alphanumeric c h = ground arith

hyphen_separates : is_ascii_alphanumeric b'-' ≡ false
unfolding is_ascii_alphanumeric
hyphen_separates = refl

-- What was written after a first letter is read back as it stands.
rest_of_written :
    (pending : Bool) (s : Text)
    → rest_of true false (rest_of true pending s) ≡ rest_of true pending s
rest_of_written pending [] = refl
rest_of_written pending (c ∷ s) =
    ground (
      arith,
      lower_alphanumeric c,
      hyphen_separates,
      rest_of_written false s,
      rest_of_written true s,
    )

rest_of_fresh : (p q : Bool) (s : Text) → rest_of false q (rest_of false p s) ≡ rest_of false p s
rest_of_fresh p q [] = refl
rest_of_fresh p q (c ∷ s) =
    ground (arith, lower_alphanumeric c, rest_of_written false s, rest_of_fresh true q s)

-- The slug of a slug is that slug.
pub slugify_idempotent : (s : Text) → slugify (slugify s) ≡ slugify s
unfolding slugify
slugify_idempotent s =
    let once : slug_loop [] false s ≡ rest_of false false s = slug_loop-rest_of [] false s in
    slug_loop-rest_of [] false (slug_loop [] false s)
    ∙ (ap (rest_of false false) once ∙ (rest_of_fresh false false s ∙ sym once))

-- Every character of a slug is a hyphen, a digit or a small letter.
abbrev pub is_slug_char : ℕ → Bool
is_slug_char c = nat_beq c 45 || leb 48 c && leb c 57 || leb 97 c && leb c 122

lower_slug_char :
    (c : ℕ) → is_ascii_alphanumeric c ≡ true → is_slug_char (to_ascii_lowercase c) ≡ true
unfolding is_ascii_alphanumeric to_ascii_lowercase
lower_slug_char c h = ground arith

rest_of-chars :
    (written pending : Bool) (s : Text)
    → All (λ c. is_slug_char c ≡ true) (rest_of written pending s)
rest_of-chars written pending [] = tt
rest_of-chars written pending (c ∷ s) =
    ground (arith, lower_slug_char c, rest_of-chars true false s, rest_of-chars written true s)

-- The hyphens of a slug stand between two other characters: none at the start, none at the end,
-- and no two together.
abbrev pub Separated : Bool → Text → Type 0
Separated after_letter [] = Unit {0}
Separated after_letter (c ∷ s) = elim (nat_beq c 45) [
  | true ↦ (after_letter ≡ true) × (is_empty s ≡ false) × Separated false s
  | false ↦ Separated true s
]

lower-ne-hyphen :
    (c : ℕ) → is_ascii_alphanumeric c ≡ true → nat_beq (to_ascii_lowercase c) 45 ≡ false
unfolding is_ascii_alphanumeric to_ascii_lowercase
lower-ne-hyphen c h = ground arith

rest_of_written-Separated : (pending : Bool) (s : Text) → Separated true (rest_of true pending s)
rest_of_written-Separated pending [] = tt
rest_of_written-Separated pending (c ∷ s) =
    ground (
      arith,
      lower-ne-hyphen c,
      rest_of_written-Separated false s,
      rest_of_written-Separated true s,
    )

rest_of_fresh-Separated : (pending : Bool) (s : Text) → Separated false (rest_of false pending s)
rest_of_fresh-Separated pending [] = tt
rest_of_fresh-Separated pending (c ∷ s) =
    ground
      (arith, lower-ne-hyphen c, rest_of_written-Separated false s, rest_of_fresh-Separated true s)

-- A slug consists of hyphens, digits and small letters, each of its hyphens stands between two
-- characters that are none, and the slug of a slug is that slug.
pub slugify_shape :
    (s : Text)
    → All (λ c. is_slug_char c ≡ true) (slugify s)
      × Separated false (slugify s)
      × (slugify (slugify s) ≡ slugify s)
unfolding slugify
slugify_shape s = (
  rw (slug_loop-rest_of [] false s) (rest_of-chars false false s),
  rw (slug_loop-rest_of [] false s) (rest_of_fresh-Separated false s),
  slugify_idempotent s,
)
