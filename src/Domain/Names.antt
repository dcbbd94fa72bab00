-- ===== src/Domain/Names.antt =====
-- The text normalizers: server slugs, channel names, role names and emoji names.
pub mod Slugs
use democrachat.Prelude.{
  ℕ, Bool, true, false, ◌&&◌, ◌||◌, not, List, [], ◌∷◌, ◌++◌, map, nat_beq, if◌then◌else◌, retain,
}
use democrachat.Prelude.Std.{
  Text, trim, is_whitespace, is_ascii_alphanumeric, to_ascii_lowercase, is_empty,
}
use mathlib.Core.List.{reverse}

-- A slug in the making: what is written, and whether a hyphen is due before the next letter.
abbrev pub slug_loop : Text → Bool → Text → Text
slug_loop out pending_hyphen [] = out
slug_loop out pending_hyphen (ch ∷ input) =
    slug_loop
      (if is_ascii_alphanumeric ch
        then (if pending_hyphen && not (is_empty out) then out ++ b'-' ∷ [] else out)
          ++ to_ascii_lowercase ch ∷ []
        else out)
      (not (is_ascii_alphanumeric ch)) input

unfoldable pub slugify : Text → Text
unfolding is_ascii_alphanumeric to_ascii_lowercase
slugify input = slug_loop [] false input

-- The same loop, written a second time in the source.
unfoldable pub normalize_channel_name : Text → Text
unfolding is_ascii_alphanumeric to_ascii_lowercase
normalize_channel_name input = slug_loop [] false input

unfoldable pub normalize_emoji_name : Text → Text
unfolding is_ascii_alphanumeric to_ascii_lowercase
normalize_emoji_name input =
    map to_ascii_lowercase
      (retain (λ c. is_ascii_alphanumeric c || nat_beq c b'-' || nat_beq c b'_') input)

abbrev role_loop : Text → Bool → Text → Text
role_loop out prev_dash [] = out
role_loop out prev_dash (ch ∷ raw) =
    let word = is_ascii_alphanumeric ch || nat_beq ch b'_' in
    let dash = (is_whitespace ch || nat_beq ch b'-') && not (is_empty out) && not prev_dash in
    role_loop (if word then out ++ ch ∷ [] else if dash then out ++ b'-' ∷ [] else out)
      (if word then false else if dash then true else prev_dash) raw

-- `while out.ends_with('-') { out.pop(); }`, on the text read from its end.
abbrev drop_dashes : Text → Text
drop_dashes [] = []
drop_dashes (c ∷ s) = let rest = drop_dashes s in if nat_beq c b'-' then rest else c ∷ s

-- `str::to_lowercase` follows the Unicode tables, and is an argument.
unfoldable pub normalize_role_name : (Text → Text) → Text → Text
unfolding is_ascii_alphanumeric is_whitespace trim
normalize_role_name to_lowercase raw =
    reverse (drop_dashes (reverse (role_loop [] false (to_lowercase (trim raw)))))
