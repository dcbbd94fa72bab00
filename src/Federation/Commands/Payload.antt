-- ===== src/Federation/Commands/Payload.antt =====
-- What a forwarding node's signature covers.
use democrachat.Federation.Commands.{signing_payload}
use democrachat.Prelude.{
  [], arith, contains, false, list_eq, nat_eq, pair_eq, refl, triple_eq, ◌++◌, ◌∷◌, ◌≡◌, true, ℕ,
}
use democrachat.Prelude.Int.{ℤ}
use democrachat.Prelude.Std.{Text, codes}

-- No line ends inside the text.
abbrev pub IsLine : Text → Type 0
IsLine t = contains t 10 ≡ false

-- Two texts that end in a line each are cut at the same place.
cut : (a b s t : Text) → IsLine a → IsLine b → a ++ 10 ∷ s ≡ b ++ 10 ∷ t → (a ≡ b) × (s ≡ t)
cut [] [] s t h k e = (refl, ground (arith, e))
cut [] (y ∷ b) s t h k e = absurd (ground (arith, e))
cut (x ∷ a) [] s t h k e = absurd (ground (arith, e))
cut (x ∷ a) (y ∷ b) s t h k e = ground (arith, cut a b s t)

has_end : (b t : Text) → contains (b ++ 10 ∷ t) 10 ≡ true
has_end [] t = refl
has_end (x ∷ b) t = ground (arith, has_end b t)

-- A text of two lines is cut in one way only.
cut_last : (a b s t : Text) → IsLine a → IsLine s → a ++ 10 ∷ s ≡ b ++ 10 ∷ t → (a ≡ b) × (s ≡ t)
cut_last [] [] s t h k e = (refl, ground (arith, e))
cut_last [] (y ∷ b) s t h k e = absurd (ground (arith, e, has_end b t))
cut_last (x ∷ a) [] s t h k e = absurd (ground (arith, e))
cut_last (x ∷ a) (y ∷ b) s t h k e = ground (arith, cut_last a b s t)

-- What a node signs for a command fixes its node, its instant, its nonce and its body: no other
-- command, with whatever nonce and body, has the same bytes. The nonce and the body that were signed
-- are each one line, as the hexadecimal nonce and compact JSON are, and a printed number is one line
-- that no other number is printed as.
pub signing_payload_injective :
    (show_u16 : ℕ → Text) (show_i64 : ℤ → Text) (node node' : ℕ) (at at' : ℤ)
    (nonce nonce' body body' : Text)
    → ((n : ℕ) → IsLine (show_u16 n))
    → ((i : ℤ) → IsLine (show_i64 i))
    → ((m n : ℕ) → show_u16 m ≡ show_u16 n → m ≡ n)
    → ((i j : ℤ) → show_i64 i ≡ show_i64 j → i ≡ j)
    → IsLine nonce
    → IsLine body
    → signing_payload show_u16 show_i64 node at nonce body
      ≡ signing_payload show_u16 show_i64 node' at' nonce' body'
    → (node ≡ node') × (at ≡ at') × (nonce ≡ nonce') × (body ≡ body')
unfolding signing_payload
signing_payload_injective show_u16 show_i64 node node' at at' nonce nonce' body body' u i u' i' h k
      e =
    let title = codes "democrachat:cmd:v1" in
    let last = nonce ++ 10 ∷ body in
    let last' = nonce' ++ 10 ∷ body' in
    let dated = show_i64 at ++ 10 ∷ last in
    let dated' = show_i64 at' ++ 10 ∷ last' in
    let after =
      cut title title (show_u16 node ++ 10 ∷ dated) (show_u16 node' ++ 10 ∷ dated') refl refl e in
    let at_node = cut (show_u16 node) (show_u16 node') dated dated' (u node) (u node') after.1 in
    let at_date = cut (show_i64 at) (show_i64 at') last last' (i at) (i at') at_node.1 in
    let at_nonce = cut_last nonce nonce' body body' h k at_date.1 in
    (u' node node' at_node.0, i' at at' at_date.0, at_nonce.0, at_nonce.1)
