-- ===== src/App/Media.antt =====
-- crates/app/src/chat_service.rs and crates/domain/src/chat/media_kind.rs: uploads.
use democrachat.App.Results.{Result, fail_if, ok, ok_or, ◌>>=◌, ◌>>◌}
use democrachat.Domain.Chat.{MediaKind, audio, image, video}
use democrachat.Prelude.{
  List, Option, [], if◌then◌else◌, length, list_eq, ltb, map, nat_beq, nat_eq, none, pair_eq, some,
  triple_eq, ℕ, ◌*◌, ◌==◌, ◌∷◌,
}
use democrachat.Prelude.Maps.{get}
use democrachat.Prelude.Std.{Text, codes, is_empty, to_ascii_lowercase, trim}
use democrachat.Store.{Inner}
use democrachat.Store.Chat.{put_media}

pub data MediaError : Type 0 where
  empty_upload too_large : MediaError
  unsupported_type : Text → MediaError

abbrev pub max_media_bytes : ℕ
max_media_bytes = 25 * 1024 * 1024

-- The first piece of `split(c)`.
unfoldable pub before : ℕ → Text → Text
before c [] = []
before c (x ∷ l) = let rest = before c l in if nat_beq x c then [] else x ∷ rest

unfoldable pub from_content_type : Text → Option MediaKind
unfolding before
from_content_type content_type =
    let top = map to_ascii_lowercase (trim (before b'/' content_type)) in
    if top == codes "image"
    then some image
    else if top == codes "video"
    then some video
    else if top == codes "audio"
    then some audio
    else none

-- The type without its parameters.
unfoldable pub base_type : Text → Text
unfolding before
base_type content_type = map to_ascii_lowercase (trim (before b';' content_type))

unfoldable pub store_media :
    (hex : ℕ → Text)
    → Inner
    → (nanos : ℕ) → Text
    → List ℕ
    → Result MediaError (Text × MediaKind × Inner)
unfolding base_type from_content_type
store_media hex s nanos content_type bytes = do
  fail_if (is_empty bytes) empty_upload
  fail_if (ltb max_media_bytes (length bytes)) too_large
  let base = base_type content_type
  fail_if (base == codes "image/svg+xml") (unsupported_type base)
  kind ← ok_or (from_content_type base) (unsupported_type base)
  let (key, t) = put_media hex s nanos base bytes
  ok (key, kind, t)

unfoldable pub media_blob : Inner → Text → Option (Text × List ℕ)
media_blob s key = get key s.media
