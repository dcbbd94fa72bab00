-- ===== src/App/Emojis/Names.antt =====
-- An emoji's name is unique on its server for all time.
use democrachat.App.Emojis.{add_emoji}
use democrachat.App.Governance.{franchised_only}
use democrachat.App.Results.{Holds, of_Holds, ok}
use democrachat.Domain.Chat.{Emoji}
use democrachat.Domain.Membership.{Membership, is_franchised, User}
use democrachat.Domain.Names.{normalize_emoji_name}
use democrachat.Domain.Server.{Server}
use democrachat.Domain.Time.{Timestamp}
use democrachat.Prelude.{
  Bool, List, [], arith, count, false, find, list_eq, nat_beq, nat_eq, none, pair_eq, refl, some,
  triple_eq, true, ℕ, ◌&&◌, ◌==◌, ◌∷◌, ◌≡◌, ◌≢◌, ◌≤◌, Bool-cases, ap, bit, inl, inr, nat_beq_iff,
  subst, Option, Option-cases, beq_refl,
}
use democrachat.Prelude.Maps.{get, values, count-insert-none, insert, get-insert}
use democrachat.Prelude.Std.{Text, is_empty, trim}
use democrachat.Store.{Inner, get_membership, find_by_handle, find_by_slug, record_row}
use democrachat.Store.Emojis.{find_emoji, insert_emoji, next_emoji_id}

-- No server has two emoji of one name.
abbrev pub NamedOnce : Inner → Type 0
NamedOnce s =
    (server : ℕ) (name : Text)
    → count (λ e. nat_beq e.server_id server && e.name == name) (values s.emojis) ≤ 1

absent : (p : Emoji → Bool) (l : List Emoji) → find p l ≡ none → count p l ≡ 0
absent p [] h = refl
absent p (e ∷ l) h = ground (arith, absent p l)

-- What an addition leaves behind.
pub record Added (s : Inner) (name : Text) (emoji : Emoji) (t : Inner) : Type 0 where
  pub by_citizen :
      (m : Membership) × (get_membership s emoji.added_by emoji.server_id ≡ some m)
      × (is_franchised m ≡ true)
  pub is_named : (emoji.name ≡ normalize_emoji_name name) × (is_empty emoji.name ≡ false)
  pub is_kept : get emoji.id t.emojis ≡ some emoji
  pub named_once : NamedOnce t
  pub others : (id : ℕ) → id ≢ emoji.id → get id t.emojis ≡ get id s.emojis

and_parts : (a b : Bool) → (a && b) ≡ true → (a ≡ true) × (b ≡ true)
and_parts a b h = ground arith

same_text : {s t : Text} → (s == t) ≡ true → s ≡ t
same_text {s} {t} = (list_eq.beq_iff s t).0

NamedOnce-insert :
    (s : Inner) (e : Emoji)
    → NamedOnce s
    → get e.id s.emojis ≡ none
    → find_emoji s e.server_id e.name ≡ none
    → (server : ℕ) (name : Text)
    → count (λ x. nat_beq x.server_id server && x.name == name) (values (insert e.id e s.emojis))
      ≤ 1
unfolding find_emoji
NamedOnce-insert s e once fresh free server name =
    let p : Emoji → Bool = λ x. nat_beq x.server_id server && x.name == name in
    let more = count-insert-none p e.id e s.emojis fresh in
    elim (Bool-cases (p e)) [
      | inr other ↦ let n = once server name in let b = ap bit other in omega (arith, more, n, b)
      | inl same ↦
          let (at_server, at_name) = and_parts (nat_beq e.server_id server) (e.name == name) same in
          let free' : find p (values s.emojis) ≡ none =
            subst
              (λ t. find (λ x. nat_beq x.server_id server && x.name == t) (values s.emojis) ≡ none)
              (same_text at_name)
              (subst
                (λ i.
                  find (λ x. nat_beq x.server_id i && x.name == e.name) (values s.emojis) ≡ none)
                ((nat_beq_iff e.server_id server).0 at_server) free) in
          let none_yet = absent p (values s.emojis) free' in
          let b = ap bit same in omega (arith, more, none_yet, b)
    ]

only_franchised :
    (o : Option Membership) (m : Membership)
    → franchised_only o ≡ some m
    → (o ≡ some m) × (is_franchised m ≡ true)
only_franchised none m h = absurd (cc)
only_franchised (some n) m h = ground (arith, h)

module _ (s : Inner) (now : Timestamp) (handle slug name url : Text) (once : NamedOnce s)
    (fresh : get (next_emoji_id s).0 s.emojis ≡ none) where
  Added-made :
      (server : Server) (user : User) (m : Membership)
      → franchised_only (get_membership s user.id server.id) ≡ some m
      → is_empty (normalize_emoji_name name) ≡ false
      → find_emoji s server.id (normalize_emoji_name name) ≡ none
      → let e : Emoji = record {
        id = (next_emoji_id s).0;
        server_id = server.id;
        name = normalize_emoji_name name;
        url = url;
        added_by = user.id;
        added_at = now;
      } in
        Added s name e (insert_emoji (next_emoji_id s).1 e)
  unfolding insert_emoji next_emoji_id record_row
  Added-made server user m is_one has_name free =
      let id = (next_emoji_id s).0 in
      let e : Emoji = record {
        id = id;
        server_id = server.id;
        name = normalize_emoji_name name;
        url = url;
        added_by = user.id;
        added_at = now;
      } in
      let citizenship = only_franchised (get_membership s user.id server.id) m is_one in
      let at = λ (j : ℕ). get-insert id j e s.emojis in
      record {
        by_citizen = (m, citizenship.0, citizenship.1);
        is_named = (refl, has_name);
        is_kept = ground (arith, at id, beq_refl {A = ℕ} id);
        named_once = NamedOnce-insert s e once fresh free;
        others = λ j other. ground (arith, at j, nat_beq_iff id j);
      }

  -- A new emoji comes from a citizen of the server and has a name in normal form that no emoji of the
  -- server has; after it no two emoji of a server share a name, and every other emoji is as it was.
  -- The next id is free, and no two emoji of a server shared a name before.
  pub add_emoji-Added :
      (emoji : Emoji) (t : Inner)
      → add_emoji s now handle slug name url ≡ ok (emoji, t)
      → Added s name emoji t
  unfolding add_emoji
  add_emoji-Added emoji t h = of_Holds (λ a. Added s name (a.0) (a.1)) _ (emoji, t) every h
    where
      every : Holds (λ a. Added s name (a.0) (a.1)) (add_emoji s now handle slug name url)
      every = elim (Option-cases (find_by_slug s (trim slug))) [
        | inl e ↦ rw (Holds, add_emoji, e) tt
        | inr (server, e) ↦ elim (Option-cases (find_by_handle s (trim handle))) [
          | inl u ↦ rw (Holds, add_emoji, e, u) tt
          | inr (user, u) ↦
              elim (Option-cases (franchised_only (get_membership s user.id server.id))) [
                | inl f ↦ rw (Holds, add_emoji, e, u, f) tt
                | inr (m, f) ↦ elim (Bool-cases (is_empty (normalize_emoji_name name))) [
                  | inl k ↦ rw (Holds, add_emoji, e, u, f, k) tt
                  | inr k ↦
                      elim (Option-cases (find_emoji s server.id (normalize_emoji_name name))) [
                        | inr (o, n) ↦ rw (Holds, add_emoji, e, u, f, k, n) tt
                        | inl n ↦
                            rw (Holds, add_emoji, e, u, f, k, n) (Added-made server user m f k n)
                      ]
                ]
              ]
        ]
      ]
