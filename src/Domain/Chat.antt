-- ===== src/Domain/Chat.antt =====
-- crates/domain/src/chat, roles, rules, emoji and keys: the entities that a server holds.
use democrachat.Prelude.{
  ℕ, Bool, true, false, Option, none, some, List, [], ◌∷◌, list_eq, nat_eq, ◌==◌, find,
}
use democrachat.Prelude.Std.{Text, codes}
use democrachat.Domain.Time.{Timestamp}
use democrachat.Domain.Membership.{Tier, guest, member, citizen}

pub data HistoryMode : Type 0 where
  open_history ephemeral : HistoryMode

pub record Channel : Type 0 where
  pub id : ℕ
  pub server_id : ℕ
  pub name : Text
  pub topic : Text
  pub created_at : Timestamp
  pub is_encrypted : Bool
  pub history_mode : HistoryMode

unfoldable pub new_channel : ℕ → ℕ → Text → Text → Timestamp → Channel
new_channel id server_id name topic created_at = record {
  id = id;
  server_id = server_id;
  name = name;
  topic = topic;
  created_at = created_at;
  is_encrypted = false;
  history_mode = open_history;
}

unfoldable pub enable_encryption : Channel → HistoryMode → Channel
enable_encryption c mode = record c { is_encrypted = true; history_mode = mode }

pub data MediaKind : Type 0 where
  image video audio : MediaKind

pub record Attachment : Type 0 where
  pub key : Text
  pub content_type : Text
  pub kind : MediaKind
  pub caption : Text
  pub is_spoiler : Bool

pub record Message : Type 0 where
  pub id : ℕ
  pub channel_id : ℕ
  pub server_id : ℕ
  pub author : ℕ
  pub body : Text
  pub key_epoch : Option ℕ
  pub parent : Option ℕ
  pub created_at : Timestamp
  pub edited_at : Option Timestamp
  pub is_deleted : Bool
  pub attachments : List Attachment

unfoldable pub new_message : ℕ → ℕ → ℕ → ℕ → Text → Option ℕ → Timestamp → Message
new_message id channel_id server_id author body parent created_at = record {
  id = id;
  channel_id = channel_id;
  server_id = server_id;
  author = author;
  body = body;
  key_epoch = none;
  parent = parent;
  created_at = created_at;
  edited_at = none;
  is_deleted = false;
  attachments = [];
}

unfoldable pub sealed_message : ℕ → ℕ → ℕ → ℕ → Text → ℕ → Option ℕ → Timestamp → Message
unfolding new_message
sealed_message id channel_id server_id author ciphertext key_epoch parent created_at =
    record (new_message id channel_id server_id author ciphertext parent created_at) {
      key_epoch = some key_epoch;
    }

unfoldable pub edit : Message → Text → Timestamp → Message
edit m body at = record m { body = body; edited_at = some at }

unfoldable pub tombstone : Message → Message
tombstone m = record m { body = []; attachments = []; is_deleted = true }

pub record Reaction : Type 0 where
  pub message_id : ℕ
  pub user : ℕ
  pub emoji : Text

pub record Rule : Type 0 where
  pub id : ℕ
  pub server_id : ℕ
  pub text : Text
  pub added_at : Timestamp

pub record Role : Type 0 where
  pub id : ℕ
  pub server_id : ℕ
  pub name : Text
  pub created_at : Timestamp

pub record RoleAssignment : Type 0 where
  pub server_id : ℕ
  pub role_id : ℕ
  pub user : ℕ

pub record Emoji : Type 0 where
  pub id : ℕ
  pub server_id : ℕ
  pub name : Text
  pub url : Text
  pub added_by : ℕ
  pub added_at : Timestamp

pub record EmojiVote : Type 0 where
  pub server_id : ℕ
  pub emoji_id : ℕ
  pub voter : ℕ
  pub is_up : Bool

pub record WrappedKey : Type 0 where
  pub salt : Text
  pub nonce : Text
  pub ciphertext : Text

pub record UserKeys : Type 0 where
  pub user_id : ℕ
  pub public_key : Text
  pub wrapped_secret : WrappedKey

pub record ChannelKeyGrant : Type 0 where
  pub server_id : ℕ
  pub channel_id : ℕ
  pub epoch : ℕ
  pub grantee : ℕ
  pub sealed_key : Text

pub data StandingRole : Type 0 where
  everyone_role members_role citizens_role : StandingRole

abbrev pub standing_name : StandingRole → Text
standing_name everyone_role = codes "everyone"
standing_name members_role = codes "members"
standing_name citizens_role = codes "citizens"

unfoldable pub from_token : Text → Option StandingRole
from_token token =
    find (λ r. standing_name r == token) (everyone_role ∷ members_role ∷ citizens_role ∷ [])

unfoldable pub admits : StandingRole → Tier → Bool
admits everyone_role guest = false
admits everyone_role _ = true
admits members_role member = true
admits members_role _ = false
admits citizens_role citizen = true
admits citizens_role _ = false
