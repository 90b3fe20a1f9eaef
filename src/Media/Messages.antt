-- ===== src/Media/Messages.antt =====
-- internal/media/store.go, Unwrap and attachment: which part of a message is cached.
use wppconnect_server_go.Prelude.{
  ℕ, zero, suc, String, len, Bool, false, not, ◌&&◌, ◌||◌, Option, none, some, ltb, str_eq, ◌==◌,
  if◌then◌else◌, all_chars, List, length as size,
}
use wppconnect_server_go.Media.Texts.{has_prefix, has_suffix, filename}

pub data Kind : Type 0 where
  image document audio video sticker : Kind

-- What the attachments' getters return; keys and hashes are bytes.
pub record Source : Type 0 where
  pub url : String
  pub direct_path : String
  pub mimetype : String
  pub filename : String
  pub media_key : List ℕ
  pub file_hash : List ℕ
  pub encoded_hash : List ℕ
  pub file_length : ℕ

-- The five getters of a message that `attachment` asks.
pub record Content : Type 0 where
  pub image_message : Option Source
  pub document_message : Option Source
  pub audio_message : Option Source
  pub video_message : Option Source
  pub sticker_message : Option Source

-- A message with the eight wrappers of `Unwrap`, in its order, and its content.
mutual
  pub data Message : Type 0 where
    message :
        (ephemeral caption sent once once_v2 once_v2_extension poll edited : Inner)
        → Content
        → Message

  pub data Inner : Type 0 where
    absent : Inner
    present : Message → Inner

abbrev pub or_else : Inner → Option Message → Option Message
or_else absent rest = rest
or_else (present m) rest = some m

abbrev pub inner : Message → Option Message
inner (message a b c d e f g h content) =
    or_else a
      (or_else b (or_else c (or_else d (or_else e (or_else f (or_else g (or_else h none)))))))

abbrev pub content_of : Message → Content
content_of (message a b c d e f g h content) = content

abbrev pub max_depth : ℕ
max_depth = 8

-- The loop of `Unwrap` with `left` rounds to go.
abbrev pub unwrap_from : ℕ → Message → Message
unwrap_from zero m = m
unwrap_from (suc left) m = elim (inner m) [ none ↦ m | some i ↦ unwrap_from left i ]

unfoldable pub unwrap : Message → Message
unwrap m = unwrap_from max_depth m

-- What is cached of an attachment.
pub record Descriptor : Type 0 where
  pub kind : Kind
  pub source_url : String
  pub source_path : String
  pub type : String
  pub name : String
  pub length : ℕ

-- The first attachment that the message has, with the name that only a document has.
abbrev pub source : Content → Option (Kind × Source × String)
source c = elim c.image_message [
  | some s ↦ some (image, s, "")
  | none ↦ elim c.document_message [
    | some s ↦ some (document, s, s.filename)
    | none ↦ elim c.audio_message [
      | some s ↦ some (audio, s, "")
      | none ↦ elim c.video_message [
        | some s ↦ some (video, s, "")
        | none ↦ elim c.sticker_message [ some s ↦ some (sticker, s, "") | none ↦ none ]
      ]
    ]
  ]
]

abbrev pub too_long : Source → Bool
too_long s =
    ltb 4096 (len s.url)
    || ltb 4096 (len s.direct_path)
    || ltb 64 (size s.media_key)
    || ltb 64 (size s.file_hash)
    || ltb 64 (size s.encoded_hash)
    || ltb 256 (len s.mimetype)

-- What url.Parse makes of a URL.
pub record Parsed : Type 0 where
  pub scheme : String
  pub has_user : Bool
  pub port : String
  pub host : String

-- The path has no backslash, carriage return or line feed.
abbrev pub is_plain : ℕ → Bool
is_plain c = not (c == 92 || c == 13 || c == 10)

abbrev pub good_path : String → Bool
good_path p = has_prefix p "/" && all_chars is_plain p

-- `parse` is url.Parse and `lower` is strings.ToLower.
module _ (parse : String → Option Parsed) (lower : String → String) where
  abbrev pub good_parsed : Option Parsed → Bool
  good_parsed none = false
  good_parsed (some u) =
      str_eq u.scheme "https"
      && not u.has_user
      && (str_eq u.port "" || str_eq u.port "443")
      && has_suffix (lower u.host) ".whatsapp.net"

  abbrev pub good_url : String → Bool
  good_url url = good_parsed (parse url)

  abbrev pub describe : Kind → Source → String → String → Descriptor
  describe kind s name url = record {
    kind = kind;
    source_url = url;
    source_path = s.direct_path;
    type = s.mimetype;
    name = filename name;
    length = s.file_length;
  }

  abbrev pub check : Kind × Source × String → Option Descriptor
  check (kind, s, name) =
      if too_long s
      then none
      else if not (str_eq s.direct_path "")
      then if good_path s.direct_path then some (describe kind s name "") else none
      else if not (str_eq s.url "") && not (good_url s.url)
      then none
      else some (describe kind s name s.url)

  unfoldable pub attachment : Message → Option Descriptor
  attachment m = elim (source (content_of (unwrap m))) [ none ↦ none | some k ↦ check k ]
