-- ===== src/Media/Tests.antt =====
-- internal/media/store.go on concrete caches: tests, and the theorems at these inputs.
use wppconnect_server_go.Prelude.{
  ℕ, ◌+◌, ◌≤◌, String, ◌≡◌, refl, subst, ap, ◌⊎◌, Bool, true, false, Option, none, some, [], ◌∷◌,
  arith,
}
use wppconnect_server_go.Media.{Store, cache_ttl, new_store, remember, get, evict}
use wppconnect_server_go.Media.Invariant.{IsValid, view}
use wppconnect_server_go.Media.Fifo.{fifo_remember, remember_lem}
use wppconnect_server_go.Media.Texts.{filename}
use wppconnect_server_go.Media.Messages.{
  document, Source, Content, Message, message, absent, present, content_of, unwrap, Descriptor,
  Parsed, attachment,
}
use wppconnect_server_go.Media.Safety.{IsSafe, attachment-IsSafe, Nested, unwrap_lem}

new_store-IsValid : IsValid {A = String} new_store
new_store-IsValid = record {
  agrees = λ _. refl;
  keyed = tt;
  rising = tt;
  known = tt;
  bounded = omega arith;
}

abbrev one : Store String
one = record {
  items = ("m-1", 0) ∷ [];
  order = record { element = 0; id = "m-1"; descriptor = "photo"; expires = 5 + cache_ttl } ∷ [];
  next = 1;
}

remembers : remember 5 "m-1" (some "photo") new_store ≡ (true, one)
unfolding remember evict
remembers = refl

remember_lem_example :
    ((remember {A = String} 5 "m-1" (some "photo") new_store).0 ≡ true)
    × IsValid (remember {A = String} 5 "m-1" (some "photo") new_store).1
    × (view (remember {A = String} 5 "m-1" (some "photo") new_store).1.order
        ≡ fifo_remember 5 "m-1" "photo" [])
remember_lem_example =
    remember_lem 5 "m-1" "photo" new_store new_store-IsValid (omega arith) (omega arith)

one-IsValid : IsValid one
one-IsValid = subst IsValid (ap (λ (r : Bool × Store String). r.1) remembers) remember_lem_example.1

-- At its end an entry is expired, and it is taken out of the map and the list.
expires_result : get (5 + cache_ttl) "m-1" one ≡ (none, record one { items = []; order = [] })
unfolding get
expires_result = refl

-- Remembering an identifier again moves it to the end.
again_result :
    view (remember 8 "m-1" (some "again") (remember 7 "m-2" (some "film") one).1).1.order
    ≡ ("m-2", ("film", 7 + cache_ttl)) ∷ ("m-1", ("again", 8 + cache_ttl)) ∷ []
unfolding remember evict
again_result = refl

abbrev no_content : Content
no_content = record {
  image_message = none;
  document_message = none;
  audio_message = none;
  video_message = none;
  sticker_message = none;
}

abbrev report : Source
report = record {
  url = "https://mmg.whatsapp.net/d/f";
  direct_path = "";
  mimetype = "application/pdf";
  filename = "../etc/report.pdf";
  media_key = 1 ∷ 2 ∷ [];
  file_hash = [];
  encoded_hash = [];
  file_length = 9;
}

abbrev plain : Message
plain =
    message absent absent absent absent absent absent absent absent
      (record no_content { document_message = some report })

abbrev wrapped : Message
wrapped = message (present plain) absent absent absent absent absent absent absent no_content

abbrev parser : String → Option Parsed
parser _ =
    some (record { scheme = "https"; has_user = false; port = ""; host = "mmg.whatsapp.net" })

abbrev described : Descriptor
described = record {
  kind = document;
  source_url = "https://mmg.whatsapp.net/d/f";
  source_path = "";
  type = "application/pdf";
  name = "report.pdf";
  length = 9;
}

describes : attachment parser (λ s. s) wrapped ≡ some described
unfolding attachment unwrap filename
describes = refl

attachment-IsSafe_example : IsSafe parser (λ s. s) described
attachment-IsSafe_example = attachment-IsSafe parser (λ s. s) wrapped described describes

-- The same document at another host is refused.
refuses :
    attachment
      (λ _. some (record { scheme = "https"; has_user = false; port = ""; host = "evil.example" }))
      (λ s. s)
      wrapped
    ≡ none
unfolding attachment unwrap
refuses = refl

unwrap_lem_example :
    (n : ℕ) × (n ≤ 8)
    × Nested n wrapped (unwrap wrapped)
    × ((n ≡ 8)
        ⊎ (unwrap wrapped
            ≡ message absent absent absent absent absent absent absent absent
                (content_of (unwrap wrapped))))
unwrap_lem_example = unwrap_lem wrapped
