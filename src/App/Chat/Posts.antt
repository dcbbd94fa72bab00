-- ===== src/App/Chat/Posts.antt =====
-- Who may post what where, and what a post leaves in the store.
use democrachat.App.Chat.{
  MessageError, Result, admit_poster, insert_message, resolve_poster, post_message,
  post_message_with_attachments, post_sealed_message, reply_message, sealed_parent,
}
use democrachat.App.Franchise.{is_some}
use democrachat.App.Results.{Holds, ok, Result-cases, err, of_Holds, ◌>>=◌}
use democrachat.Domain.Chat.{Attachment, Channel, Message, new_message, sealed_message}
use democrachat.Domain.Membership.{Membership, User}
use democrachat.Domain.Names.{normalize_channel_name}
use democrachat.Domain.Server.{Server}
use democrachat.Domain.Time.{Timestamp}
use democrachat.Prelude.{
  Bool-cases, List, Option, arith, false, find-holds, if◌then◌else◌, inl, inr, list_eq, nat_beq,
  nat_eq, none, pair_eq, refl, some, sym, triple_eq, ℕ, ◌&&◌, ◌==◌, ◌≡◌, Option-cases, [], ◌∙◌,
}
use democrachat.Prelude.Maps.{get, get-insert, values}
use democrachat.Prelude.Std.{Text, is_empty, trim}
use democrachat.Store.{Inner, find_by_slug, get_membership, find_by_handle}
use democrachat.Store.Chat.{next_message_id, put_message}
use democrachat.Store.Content.{find_channel}

-- The state after `m` was stored: every other message is what it was.
abbrev pub Stores : Inner → Message → Inner → Type 0
Stores s m t = (j : ℕ) → get j t.messages ≡ (if nat_beq m.id j then some m else get j s.messages)

pub Stores-put_message : (s : Inner) (m : Message) → Stores s m (put_message s m)
unfolding put_message
Stores-put_message s m j = get-insert m.id j m s.messages

-- A message that was let into `channel` by a member in good standing of the server `seat`.
pub record Posted (s : Inner) (seat : ℕ) (channel : Channel) (m : Message) (t : Inner)
    : Type 0 where
  pub member : Membership
  pub is_member : get_membership s m.author seat ≡ some member
  pub in_standing : member.is_sanctioned ≡ false
  pub in_channel : (m.channel_id ≡ channel.id) × (m.server_id ≡ channel.server_id)
  pub is_sealed : is_some m.key_epoch ≡ channel.is_encrypted
  pub says_something : (is_empty m.body && is_empty m.attachments) ≡ false
  pub stores : Stores s m t

admitted_member :
    (handle : Text) (o : Option Membership) (u : Unit {0})
    → admit_poster handle o ≡ ok u
    → (m : Membership) × (o ≡ some m) × (m.is_sanctioned ≡ false)
unfolding admit_poster
admitted_member handle none u h = absurd (cc)
admitted_member handle (some m) u h = elim (Bool-cases m.is_sanctioned) [
  | inl e ↦ absurd (ground arith)
  | inr e ↦ (m, refl, e)
]

module _ (s : Inner) (now : Timestamp) where
  abbrev LetIn : ℕ → Channel → Option ℕ → Message × Inner → Type 0
  LetIn seat channel parent r =
      Posted s seat channel r.0 r.1 × (r.0.server_id ≡ channel.server_id) × (r.0.parent ≡ parent)

  -- Posted in the stored channel of the given name, in the server of the given slug.
  abbrev pub PostedIn : Text → Text → Message × Inner → Type 0
  PostedIn slug name r =
      (server : Server) × (channel : Channel) × (find_by_slug s (trim slug) ≡ some server)
      × (find_channel s server.id (normalize_channel_name name) ≡ some channel)
      × (r.0.server_id ≡ server.id)
      × Posted s server.id channel r.0 r.1

  -- Posted under a message, in its stored channel, by a member of its server.
  abbrev pub RepliedTo : ℕ → Message × Inner → Type 0
  RepliedTo parent_id r =
      (parent : Message) × (server : Server) × (channel : Channel) × (get parent_id s.messages
        ≡ some parent)
      × (get parent.server_id s.servers ≡ some server)
      × (get parent.channel_id s.channels ≡ some channel)
      × (r.0.parent ≡ some parent.id)
      × Posted s server.id channel r.0 r.1

  inserted :
      (author seat : ℕ) (channel : Channel) (body : Text) (parent : Option ℕ)
      (attachments : List Attachment) (member : Membership)
      → get_membership s author seat ≡ some member
      → member.is_sanctioned ≡ false
      → Holds
          (LetIn seat channel parent)
          (insert_message s now author channel body parent attachments)
  unfolding insert_message new_message next_message_id put_message
  inserted author seat channel body parent attachments member found good =
      elim (Bool-cases channel.is_encrypted) [
        | inl e ↦ rw (insert_message, e) tt
        | inr plain ↦ elim (Bool-cases (is_empty (trim body) && is_empty attachments)) [
          | inl e ↦ rw (insert_message, plain, e) tt
          | inr says ↦
              rw (insert_message, plain, says)
                (
                  record {
                    member = member;
                    is_member = found;
                    in_standing = good;
                    in_channel = (refl, refl);
                    is_sealed = refl;
                    says_something = says;
                    stores = λ j. get-insert _ j _ s.messages;
                  },
                  refl,
                  refl,
                )
        ]
      ]

  -- The poster is a member in good standing of the server that they name, and the channel is the
  -- one of that server that they name.
  abbrev Resolved : Text → Text → User × Server × Channel → Type 0
  Resolved slug name r =
      (find_by_slug s (trim slug) ≡ some r.1)
      × (find_channel s r.1.id (normalize_channel_name name) ≡ some r.2)
      × (r.2.server_id ≡ r.1.id)
      × ((m : Membership) × (get_membership s r.0.id r.1.id ≡ some m) × (m.is_sanctioned ≡ false))

  resolved :
      (handle slug name : Text) → Holds (Resolved slug name) (resolve_poster s handle slug name)
  unfolding resolve_poster find_channel
  resolved handle slug name = elim (Option-cases (find_by_handle s (trim handle))) [
    | inl e ↦ rw (resolve_poster, e) tt
    | inr (user, eu) ↦ elim (Option-cases (find_by_slug s (trim slug))) [
      | inl e ↦ rw (resolve_poster, eu, e) tt
      | inr (server, ev) ↦
          elim (Result-cases (admit_poster handle (get_membership s user.id server.id))) [
            | inl (x, e) ↦ rw (resolve_poster, eu, ev, e) tt
            | inr (u, ea) ↦
                elim (Option-cases (find_channel s server.id (normalize_channel_name name))) [
                  | inl e ↦ rw (resolve_poster, eu, ev, ea, e) tt
                  | inr (channel, ec) ↦
                      let named =
                        find-holds
                          (λ c.
                            nat_beq c.server_id server.id && c.name == normalize_channel_name name)
                          (values s.channels) channel ec in
                      rw (resolve_poster, eu, ev, ea, ec)
                        (
                          ev,
                          ec,
                          ground (arith, named),
                          admitted_member handle (get_membership s user.id server.id) u ea,
                        )
                ]
          ]
    ]
  ]

  posted :
      (r : Result MessageError (User × Server × Channel)) (slug name body : Text)
      (attachments : List Attachment)
      → Holds (Resolved slug name) r
      → Holds
          (PostedIn slug name)
          (r >>= λ x. insert_message s now x.0.id x.2 body none attachments)
  posted (err e) slug name body attachments h = tt
  posted (ok (user, server, channel)) slug name body attachments (ev, ec, same, (m, found, good)) =
      let r : Result MessageError (Message × Inner) =
        insert_message s now user.id channel body none attachments in
      elim (Result-cases (insert_message s now user.id channel body none attachments)) [
        | inl (x, e) ↦ rw e tt
        | inr (p, e) ↦
            let let_in =
              of_Holds (LetIn server.id channel none) r p
                (inserted user.id server.id channel body none attachments m found good) e in
            rw e (server, channel, ev, ec, let_in.1 ∙ same, let_in.0)
      ]

  sealed_post :
      (r : Result MessageError (User × Server × Channel)) (slug handle name ciphertext : Text)
      (key_epoch : ℕ) (parent : Option ℕ)
      → r ≡ resolve_poster s handle slug name
      → Holds (Resolved slug name) r
      → Holds
          (PostedIn slug name)
          (post_sealed_message s now handle slug name ciphertext key_epoch parent)
  unfolding post_sealed_message sealed_message new_message next_message_id put_message
  sealed_post (err e) slug handle name ciphertext key_epoch parent same h =
      rw (post_sealed_message, sym same) tt
  sealed_post (ok (user, server, channel)) slug handle name ciphertext key_epoch parent same
        (ev, ec, own, (m, found, good)) =
      elim (Bool-cases channel.is_encrypted) [
        | inr e ↦ rw (post_sealed_message, sym same, e) tt
        | inl enc ↦ elim (Bool-cases (is_empty (trim ciphertext))) [
          | inl e ↦ rw (post_sealed_message, sym same, enc, e) tt
          | inr says ↦ elim (Result-cases (sealed_parent s channel parent)) [
            | inl (x, e) ↦ rw (post_sealed_message, sym same, enc, says, e) tt
            | inr (p, ep) ↦
                rw (post_sealed_message, sym same, enc, says, ep)
                  (
                    server,
                    channel,
                    ev,
                    ec,
                    own,
                    record {
                      member = m;
                      is_member = found;
                      in_standing = good;
                      in_channel = (refl, refl);
                      is_sealed = sym enc;
                      says_something = rw says;
                      stores = λ j. get-insert _ j _ s.messages;
                    },
                  )
          ]
        ]
      ]

  replied :
      (show_id : ℕ → Text) (handle : Text) (parent_id : ℕ) (body : Text)
      → Holds (RepliedTo parent_id) (reply_message show_id s now handle parent_id body)
  unfolding reply_message
  replied show_id handle parent_id body = elim (Option-cases (get parent_id s.messages)) [
    | inl e ↦ rw (reply_message, e) tt
    | inr (parent, ep) ↦ elim (Option-cases (get parent.channel_id s.channels)) [
      | inl e ↦ rw (reply_message, ep, e) tt
      | inr (channel, ec) ↦ elim (Option-cases (get parent.server_id s.servers)) [
        | inl e ↦ rw (reply_message, ep, ec, e) tt
        | inr (server, ev) ↦ elim (Option-cases (find_by_handle s (trim handle))) [
          | inl e ↦ rw (reply_message, ep, ec, ev, e) tt
          | inr (user, eu) ↦
              elim (Result-cases (admit_poster handle (get_membership s user.id server.id))) [
                | inl (x, e) ↦ rw (reply_message, ep, ec, ev, eu, e) tt
                | inr (u, ea) ↦
                    let (m, found, good) =
                      admitted_member handle (get_membership s user.id server.id) u ea in
                    let under : Option ℕ = some parent.id in
                    elim (Result-cases (insert_message s now user.id channel body under [])) [
                      | inl (x, e) ↦ rw (reply_message, ep, ec, ev, eu, ea, e) tt
                      | inr (p, e) ↦
                          let let_in =
                            of_Holds (LetIn server.id channel under)
                              (insert_message s now user.id channel body under []) p
                              (inserted user.id server.id channel body under [] m found good) e in
                          rw (reply_message, ep, ec, ev, eu, ea, e)
                            (parent, server, channel, ep, ev, ec, let_in.2, let_in.0)
                    ]
              ]
        ]
      ]
    ]
  ]

  -- Every way to post lets a message in only for a member of the server who is not banned, only in
  -- the stored channel that is named, which is encrypted exactly when the message is sealed, and
  -- only with a body or an attachment; then it is stored and every other message is what it was. A
  -- reply is stored under its parent, in the parent's channel, and its author is a member of the
  -- parent's server.
  pub posting_rules :
      (show_id : ℕ → Text) (handle slug name body : Text) (attachments : List Attachment)
      (key_epoch parent_id : ℕ) (parent : Option ℕ)
      → Holds
          (PostedIn slug name)
          (post_message_with_attachments s now handle slug name body attachments)
        × Holds (PostedIn slug name) (post_message s now handle slug name body)
        × Holds
            (PostedIn slug name)
            (post_sealed_message s now handle slug name body key_epoch parent)
        × Holds (RepliedTo parent_id) (reply_message show_id s now handle parent_id body)
  unfolding post_message_with_attachments post_message
  posting_rules show_id handle slug name body attachments key_epoch parent_id parent = (
    posted (resolve_poster s handle slug name) slug name body attachments
        (resolved handle slug name),
    posted (resolve_poster s handle slug name) slug name body [] (resolved handle slug name),
    sealed_post (resolve_poster s handle slug name) slug handle name body key_epoch parent refl
        (resolved handle slug name),
    replied show_id handle parent_id body,
  )
