-- ===== src/App/Chat/Authors.antt =====
-- Editing and deleting: the author's alone, and what each leaves behind.
use democrachat.App.Chat.{MessageError, authored_message, delete_message, drop_blobs, edit_message}
use democrachat.App.Chat.Posts.{Stores, Stores-put_message}
use democrachat.App.Results.{Holds, Result-cases, err, of_Holds}
use democrachat.Domain.Chat.{Attachment, Message, edit, tombstone}
use democrachat.Domain.Membership.{User}
use democrachat.Domain.Time.{Timestamp}
use democrachat.Prelude.{
  All, Bool-cases, List, Option-cases, [], arith, beq_false, beq_refl, false, if◌then◌else◌, inl,
  inr, list_eq, nat_beq, nat_beq_iff, nat_eq, none, pair_eq, refl, some, triple_eq, true, ℕ, ◌==◌,
  ◌∷◌, ◌≡◌, ◌≢◌,
}
use democrachat.Prelude.Maps.{get, get-insert, get-remove}
use democrachat.Prelude.Std.{Text, is_empty, trim}
use democrachat.Store.{Inner, find_by_handle}
use democrachat.Store.Chat.{delete_media, put_message}

-- The message of that id, and the account of that handle, which wrote it.
pub record Authored (s : Inner) (handle : Text) (id : ℕ) (m : Message) : Type 0 where
  pub user : User
  pub is_user : find_by_handle s (trim handle) ≡ some user
  pub is_message : get id s.messages ≡ some m
  pub is_author : m.author ≡ user.id

module _ (s : Inner) (handle : Text) (id : ℕ) where
  authored : Holds (Authored s handle id) (authored_message s handle id)
  unfolding authored_message
  authored = elim (Option-cases (find_by_handle s (trim handle))) [
    | inl e ↦ rw (authored_message, e) tt
    | inr (user, eu) ↦ elim (Option-cases (get id s.messages)) [
      | inl e ↦ rw (authored_message, eu, e) tt
      | inr (m, em) ↦ elim (Bool-cases (nat_beq m.author user.id)) [
        | inr e ↦ rw (authored_message, eu, em, e) tt
        | inl e ↦
            rw (authored_message, eu, em, e)
              (record {
                user = user;
                is_user = eu;
                is_message = em;
                is_author = (nat_beq_iff m.author user.id).0 e;
              })
      ]
    ]
  ]

  -- Someone else's message is refused, whatever else is asked.
  pub refused :
      (user : User) (m : Message)
      → find_by_handle s (trim handle) ≡ some user
      → get id s.messages ≡ some m
      → m.author ≢ user.id
      → authored_message s handle id ≡ err MessageError.not_the_author
  unfolding authored_message
  refused user m eu em other = rw (authored_message, eu, em, beq_false m.author user.id other) refl

-- The blobs are gone.
get-delete_media :
    (s : Inner) (k j : Text)
    → get j (delete_media s k).media ≡ (if k == j then none else get j s.media)
unfolding delete_media
get-delete_media s k j = get-remove k j s.media

gone-drop_blobs :
    (s : Inner) (l : List Attachment) (j : Text)
    → get j s.media ≡ none
    → get j (drop_blobs s l).media ≡ none
unfolding drop_blobs
gone-drop_blobs s [] j h = h
gone-drop_blobs s (a ∷ l) j h =
    gone-drop_blobs (delete_media s a.key) l j
      (ground (arith, get-delete_media s a.key j, list_eq.beq_iff a.key j))

dropped :
    (s : Inner) (l : List Attachment)
    → All (λ (a : Attachment). get a.key (drop_blobs s l).media ≡ none) l
unfolding drop_blobs
dropped s [] = tt
dropped s (a ∷ l) = (
  gone-drop_blobs (delete_media s a.key) l a.key
      (ground (arith, get-delete_media s a.key a.key, beq_refl a.key)),
  dropped (delete_media s a.key) l,
)

messages-drop_blobs : (s : Inner) (l : List Attachment) → (drop_blobs s l).messages ≡ s.messages
unfolding drop_blobs delete_media
messages-drop_blobs s [] = refl
messages-drop_blobs s (a ∷ l) = messages-drop_blobs (delete_media s a.key) l

-- Editing: the author's message has the new body and the instant of the edit, and is otherwise what
-- it was, as is every other message.
abbrev pub Edited : Inner → Timestamp → Text → ℕ → Text → Message × Inner → Type 0
Edited s now handle id body (m, t) =
    (old : Message) × Authored s handle id old
    × (is_empty (trim body) ≡ false)
    × (m ≡ record old { body = trim body; edited_at = some now })
    × Stores s m t

-- Deleting: the author's message is an empty tombstone in its place, the blobs that it referred to
-- are gone, and every other message is what it was.
abbrev pub Deleted : Inner → Text → ℕ → Inner → Type 0
Deleted s handle id t =
    (old : Message) × Authored s handle id old
    × Stores s (record old { body = []; attachments = []; is_deleted = true }) t
    × All (λ (a : Attachment). get a.key t.media ≡ none) old.attachments

module _ (s : Inner) (now : Timestamp) (handle : Text) (id : ℕ) where
  edited : (body : Text) → Holds (Edited s now handle id body) (edit_message s now handle id body)
  unfolding edit_message edit
  edited body = elim (Bool-cases (is_empty (trim body))) [
    | inl e ↦ rw (edit_message, e) tt
    | inr says ↦ elim (Result-cases (authored_message s handle id)) [
      | inl (x, e) ↦ rw (edit_message, says, e) tt
      | inr (m, e) ↦
          rw (edit_message, says, e)
            (
              m,
              of_Holds (Authored s handle id) (authored_message s handle id) m
                  (authored s handle id) e,
              says,
              refl,
              Stores-put_message s _,
            )
    ]
  ]

  deleted : Holds (Deleted s handle id) (delete_message s handle id)
  unfolding delete_message tombstone put_message
  deleted = elim (Result-cases (authored_message s handle id)) [
    | inl (x, e) ↦ rw (delete_message, e) tt
    | inr (m, e) ↦
        rw (delete_message, e)
          (
            m,
            of_Holds (Authored s handle id) (authored_message s handle id) m (authored s handle id)
                e,
            λ j. ground (
              arith,
              get-insert m.id j (tombstone m) (drop_blobs s m.attachments).messages,
              messages-drop_blobs s m.attachments,
            ),
            dropped s m.attachments,
          )
  ]

  -- An edit and a deletion that succeed are the author's. The edit changes the body, which is not
  -- blank, and the instant of the edit; the deletion leaves an empty tombstone and drops the blobs;
  -- and every other message is kept.
  pub authors_only :
      (body : Text)
      → Holds (Edited s now handle id body) (edit_message s now handle id body)
        × Holds (Deleted s handle id) (delete_message s handle id)
  authors_only body = (edited body, deleted)

  -- To an account that did not write the message, deleting it answers that it is not the author,
  -- and so does editing it, where the new body is not blank.
  pub others_refused :
      (body : Text) (user : User) (m : Message)
      → find_by_handle s (trim handle) ≡ some user
      → get id s.messages ≡ some m
      → m.author ≢ user.id
      → is_empty (trim body) ≡ false
      → (delete_message s handle id ≡ err MessageError.not_the_author)
        × (edit_message s now handle id body ≡ err MessageError.not_the_author)
  unfolding edit_message delete_message
  others_refused body user m eu em other says =
      let no_author = refused s handle id user m eu em other in
      (rw (delete_message, no_author) refl, rw (edit_message, says, no_author) refl)
