-- ===== src/History/Tests.antt =====
-- internal/history on concrete stores: tests, and the theorems at these inputs.
use Prim.Native.String.{◌++◌ as text_append}
use text.Mathlib.TextPositions.{len-append}
use wppconnect_server_go.Prelude.{
  ◌++◌, ℕ, ◌≤◌, String, len, zero, suc, ◌==◌, ◌≡◌, ◌≢◌, refl, subst, ap, ◌⊎◌, inl, inr, true, false,
  Option, none, some, List, [], ◌∷◌, map, arith, ok, Faults, All, In, str_eq, ◌&&◌, length, sum_by,
  lookup, pos, if◌then◌else◌,
}
use wppconnect_server_go.Table.{select, exists, count}
use wppconnect_server_go.Media.Messages.{Content, Message, message, absent, unwrap}
use wppconnect_server_go.History.{
  prune, insert_row, delete_rows, enforce_limits, drop_orphans, valid_id, valid_chat, v1, v2, v3,
  v5, v6, default_options, Row, Store, Outside, Info, Poll, is_row, cutoff, new_row, put,
}
use wppconnect_server_go.History.Rows.{row_bytes}
use wppconnect_server_go.History.Invariant.{IsValid, put-IsValid}
use wppconnect_server_go.History.Reads.{
  fill, scan, cut, Query, Page, matching, page_limit, get, list,
}
use wppconnect_server_go.History.Edits.{
  edit, erase, update_rows, erased, replaced, change_at, purged, purge, ReceiptEvent, receipt,
  upsert_receipt,
}
use wppconnect_server_go.History.Labels.{upsert, quota_result}
use wppconnect_server_go.History.Polls.{
  poll_choices, first_poll, select_hashes, tally, tally_all, key_of, checked_vote, vote, Results,
  poll_results,
}
use wppconnect_server_go.History.Attachments.{StoredMedia, reserve}
use wppconnect_server_go.History.Reach.{
  puts, receives, purges, votes, here, next, new_store, new_store-IsValid, Reached-IsValid,
}
use wppconnect_server_go.History.Bounds.{put_bounded}
use wppconnect_server_go.History.Retained.{put_retains}
use wppconnect_server_go.History.Ordering.{IsStamped, stale_change_ignored, deletion_final}
use wppconnect_server_go.History.Receipts.{at_time, receipts_commute}
use wppconnect_server_go.History.Falling.{following}
use wppconnect_server_go.History.Paging.{page_lem}
use wppconnect_server_go.History.Votes.{NoRepeat, checked_vote_lem}
use wppconnect_server_go.History.Tally.{poll_results_lem}
use wppconnect_server_go.History.Uploads
use wppconnect_server_go.History.Uploads.{
  IsFitted, MediaStep, MediaReach, reserves, MediaReach-IsFitted, upload_lem,
}

-- The text of an `updatedAt` is as long as the time, which is how it is read again.
abbrev stamp : ℕ → String
stamp zero = ""
stamp (suc n) = text_append "x" (stamp n)

len-stamp : (n : ℕ) → len (stamp n) ≡ n
len-stamp zero = refl
len-stamp (suc n) = omega (arith, len-append "x" (stamp n), len-stamp n)

abbrev pub zeros31 : List ℕ
zeros31 =
    0 ∷ 0 ∷ 0 ∷ 0 ∷ 0 ∷ 0 ∷ 0 ∷ 0 ∷ 0 ∷ 0 ∷ 0 ∷ 0 ∷ 0 ∷ 0 ∷ 0 ∷ 0 ∷ 0 ∷ 0 ∷ 0 ∷ 0 ∷ 0 ∷ 0 ∷ 0 ∷ 0
    ∷ 0 ∷ 0 ∷ 0 ∷ 0 ∷ 0 ∷ 0 ∷ 0 ∷ []

abbrev key_text : List ℕ → String
key_text [] = "none"
key_text (n ∷ ns) = if n == 0 then "k-yes" else "k-no"

abbrev pub outside : Outside
outside = record {
  parse_jid = λ v. some (record { user = v; server = "s.whatsapp.net" });
  user_server = "s.whatsapp.net";
  hidden_server = "lid";
  group_server = "g.us";
  newsletter_server = "newsletter";
  is_status = λ j. false;
  size = λ m. 4;
  marshal = λ m. some "poll";
  view = λ info m. some "";
  view_at = λ r m at. some (stamp at);
  mark = stamp;
  updated_at = λ text. some (len text);
  json_reads = λ text. true;
  proto_reads = λ text. true;
  listed_size = λ r. 9;
  valid_utf8 = λ text. true;
  rune_count = len;
  text_before = λ a b. true;
  poll_of = λ v raw. some (record { options = "yes" ∷ "no" ∷ []; selectable = 1 });
  digest = λ c. (if str_eq c "yes" then 0 else 1) ∷ zeros31;
  hex = key_text;
}

outside-IsStamped : IsStamped outside
outside-IsStamped = record {
  of_mark = λ at. ap some (len-stamp at);
  of_view = λ r m at text h. ground (arith, h, len-stamp at);
}

abbrev sure : Faults
sure = λ _. false

abbrev no_content : Content
no_content = record {
  image_message = none;
  document_message = none;
  audio_message = none;
  video_message = none;
  sticker_message = none;
}

abbrev plain : Message
plain = message absent absent absent absent absent absent absent absent no_content

abbrev info : String → Info
info id = record {
  id = id;
  chat = "c";
  chat_key = "c";
  sender = "a";
  from_me = false;
  time = 0;
  is_zero = false;
}

abbrev first_row : Row
first_row = new_row outside 0 1 (info "m1") "" "poll"

abbrev one : Store
one = record (new_store default_options) { rows = first_row ∷ []; sequence = 1; n = 1; b = 4 }

puts_first : put outside sure 0 0 (info "m1") (some plain) (new_store default_options) ≡ ok one
unfolding put prune insert_row delete_rows enforce_limits drop_orphans valid_id valid_chat unwrap
puts_first = refl

one-IsValid : IsValid one
one-IsValid =
    put-IsValid outside sure 0 0 (info "m1") (some plain) (new_store default_options) one
      (new_store-IsValid default_options) puts_first

put_bounded_example :
    (length one.rows ≤ 100000)
    × (sum_by row_bytes one.rows ≤ 268435456)
    × (one.options ≡ default_options)
put_bounded_example =
    put_bounded outside sure 0 0 (info "m1") plain (new_store default_options) one refl
      (new_store-IsValid default_options) puts_first

put_retains_example :
    (text raw : String) × (outside.marshal (unwrap plain) ≡ some raw)
    × (outside.view (info "m1") (unwrap plain) ≡ some text)
    × In (new_row outside 0 1 (info "m1") text raw) one.rows
put_retains_example =
    put_retains outside sure 0 0 (info "m1") plain (new_store default_options) one
      (λ x raw e. encoded raw e) refl (new_store-IsValid default_options) refl (omega arith)
      puts_first
  where
    four : len "poll" ≤ 4
    four = omega arith

    encoded : (raw : String) → ◌≡◌ {A = Option String} (some "poll") (some raw) → len raw ≤ 4
    encoded raw e = let same : "poll" ≡ raw = ground arith in subst (λ t. len t ≤ 4) same four

-- The same identity again, with another time: the first row stays.
puts_again : put outside sure 5 5 (record (info "m1") { time = 9 }) (some plain) one ≡ ok one
unfolding put prune insert_row delete_rows enforce_limits drop_orphans valid_id valid_chat unwrap
puts_again = refl

abbrev seen : ReceiptEvent
seen = record { chat = "c"; sender = "b"; kind = "read"; ids = "m1" ∷ []; time = 7 }

-- A receipt, and a vote that is written after a purge has deleted the message it was checked against.
abbrev after_purge : Store
after_purge =
    (vote outside sure 0 "c" "m1" "b" 5 ((0 ∷ zeros31) ∷ []) one
      (purged "" (receipt sure (some seen) one).1)).1

purge_all :
    purge outside sure "" (receipt sure (some seen) one).1
    ≡ ok (purged "" (receipt sure (some seen) one).1)
unfolding purge
purge_all = refl

Reached-IsValid_example : IsValid after_purge
Reached-IsValid_example =
    Reached-IsValid outside {first = new_store default_options} {s = after_purge}
      (new_store-IsValid default_options)
      (next
        (next
          (next (next here (puts sure 0 0 (info "m1") (some plain) puts_first))
            (receives sure (some seen) refl))
          (purges sure "" purge_all))
        (votes sure 0 "c" "m1" "b" 5 ((0 ∷ zeros31) ∷ []) one refl))

-- An edit at 5 ms, then an older one at 3 ms.
abbrev edited : Store
edited = record one { rows = replaced "xxxxx" "poll" first_row ∷ []; b = 9 }

edits : change_at outside sure 0 "c" "m1" (some plain) 5 one one ≡ ok edited
unfolding change_at edit get scan update_rows
edits = refl

edits_late : change_at outside sure 0 "c" "m1" (some plain) 3 edited edited ≡ ok edited
unfolding change_at edit get scan update_rows
edits_late = refl

stale_change_ignored_example : edited ≡ edited
stale_change_ignored_example =
    stale_change_ignored outside sure sure 0 0 "c" "m1" (some plain) (some plain) 5 3 one edited one
      edited edited outside-IsStamped (omega arith) (inr (refl, tt)) edits edits_late

abbrev erased_store : Store
erased_store = record one { rows = erased "xxxxx" first_row ∷ []; b = 5 }

deletes : change_at outside sure 0 "c" "m1" none 5 one one ≡ ok erased_store
unfolding change_at erase update_rows
deletes = refl

edits_deleted :
    change_at outside sure 0 "c" "m1" (some plain) 8 erased_store erased_store ≡ ok erased_store
unfolding change_at edit get scan update_rows
edits_deleted = refl

deletion_final_example :
    In (erased "xxxxx" first_row) erased_store.rows
    × In (erased "xxxxx" first_row) erased_store.rows
deletion_final_example =
    deletion_final outside sure sure 0 0 "c" "m1" plain 5 8 one erased_store one erased_store
      erased_store first_row (inl refl) refl (omega arith) deletes edits_deleted

receipts_commute_example :
    (upsert_receipt (at_time seen 9) "m1" (upsert_receipt (at_time seen 4) "m1" one)
      ≡ upsert_receipt (at_time seen 9) "m1" one)
    × (upsert_receipt (at_time seen 4) "m1" (upsert_receipt (at_time seen 9) "m1" one)
        ≡ upsert_receipt (at_time seen 9) "m1" one)
receipts_commute_example = receipts_commute seen "m1" 4 9 one

-- Two messages, of which a page of one shows the newer.
abbrev two : Store
two = record one {
  rows = first_row ∷ new_row outside 0 2 (info "m2") "" "poll" ∷ [];
  sequence = 2;
  n = 2;
  b = 8;
}

puts_second : put outside sure 0 0 (info "m2") (some plain) one ≡ ok two
unfolding put prune insert_row delete_rows enforce_limits drop_orphans valid_id valid_chat unwrap
puts_second = refl

two-IsValid : IsValid two
two-IsValid = put-IsValid outside sure 0 0 (info "m2") (some plain) one two one-IsValid puts_second

abbrev of_one : Query
of_one = record { chat = "c"; before = pos 0; limit = pos 1; unread = true }

abbrev newest_page : Page
newest_page = record { messages = new_row outside 0 2 (info "m2") "" "poll" ∷ []; next = 2 }

lists : list outside sure 0 of_one two ≡ ok newest_page
unfolding list fill scan cut valid_chat
lists = refl

page_lem_example :
    (rest : List Row) × (matching (cutoff 0 two) of_one two ≡ newest_page.messages ++ rest)
    × (length newest_page.messages ≤ page_limit of_one)
    × (((newest_page.next ≡ 0) × (rest ≡ []))
        ⊎ ((newest_page.messages ≢ [])
            × (1 ≤ newest_page.next)
            × (rest ≡ matching (cutoff 0 two) (following of_one newest_page.next) two)))
page_lem_example = page_lem outside sure 0 of_one two newest_page two-IsValid lists

checks : checked_vote outside sure 0 "c" "m1" "b" 5 ((0 ∷ zeros31) ∷ []) one ≡ ok ("k-yes" ∷ [])
unfolding get scan poll_choices select_hashes valid_chat
checks = refl

checked_vote_lem_example :
    (r : Row) × (p : Poll) × In r one.rows
    × (is_row "c" "m1" r ≡ true)
    × (cutoff 0 one ≤ r.t)
    × (r.deleted ≡ false)
    × (first_poll outside (v1 ∷ v2 ∷ v3 ∷ v5 ∷ v6 ∷ []) r.protocol ≡ some p)
    × (2 ≤ length p.options)
    × (length p.options ≤ 12)
    × ("k-yes" ∷ [] ≡ map key_text ((0 ∷ zeros31) ∷ []))
    × All (λ k. exists (λ c. str_eq (key_of outside c) k) p.options ≡ true) ("k-yes" ∷ [])
    × NoRepeat ("k-yes" ∷ [])
    × ((p.selectable ≡ 0) ⊎ (1 ≤ p.selectable))
checked_vote_lem_example =
    checked_vote_lem outside sure 0 "c" "m1" "b" 5 ((0 ∷ zeros31) ∷ []) one ("k-yes" ∷ []) checks

abbrev voted : Store
voted = record one {
  votes = record { chat = "c"; poll = "m1"; voter = "b"; updated = 5; choices = "k-yes" ∷ [] } ∷ [];
}

casts : vote outside sure 0 "c" "m1" "b" 5 ((0 ∷ zeros31) ∷ []) one one ≡ (none, voted)
unfolding vote get scan poll_choices select_hashes valid_chat upsert quota_result
casts = refl

abbrev counted : Results
counted = record {
  choices = "yes" ∷ "no" ∷ [];
  selectable = 1;
  counts = ("yes", 1) ∷ ("no", 0) ∷ [];
  voters = 1;
}

counts_votes : poll_results outside sure 0 "c" "m1" voted voted ≡ ok counted
unfolding poll_results get scan poll_choices tally tally_all
counts_votes = refl

poll_results_lem_example :
    All
      (λ c.
        (n : ℕ) × (lookup c counted.counts ≡ some n)
        × ((n
              ≡ sum_by
                  (λ v. count (str_eq (key_of outside c)) v.choices)
                  (select (λ v. str_eq v.chat "c" && str_eq v.poll "m1") voted.votes))
            ⊎ ((d : String) × In d counted.choices
                × (str_eq d c ≡ false)
                × (key_of outside d ≡ key_of outside c))))
      counted.choices
poll_results_lem_example = poll_results_lem outside sure 0 "c" "m1" voted voted counted counts_votes

abbrev photo : StoredMedia
photo = record {
  chat = "c";
  id = "m1";
  key = "o";
  mime = "image/png";
  size = 3;
  hash = "0123456789012345678901234567890123456789012345678901234567890123";
  expires = 9;
  ready = false;
}

reserves_photo : reserve outside sure 0 photo [] ≡ ok (photo ∷ [])
unfolding reserve valid_id valid_chat
reserves_photo = refl

MediaReach-IsFitted_example : IsFitted (photo ∷ [])
MediaReach-IsFitted_example =
    MediaReach-IsFitted outside {first = []} {rows = photo ∷ []}
      (record { few = omega arith; small = omega arith; sized = tt; unique = tt })
      (Uploads.next Uploads.here (reserves sure 0 photo reserves_photo))
