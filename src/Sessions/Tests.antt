-- ===== src/Sessions/Tests.antt =====
-- internal/session on a concrete data directory: tests, and the theorems at these inputs.
use Prim.Native.Char.{Char, code}
use Prim.Native.String.{◌∷◌ as ◌:::◌, ◌++◌ as concat}
use wppconnect_server_go.Prelude.{
  ℕ, zero, suc, ◌<◌, ◌==◌, String, ◌≡◌, inl, refl, subst, Bool, true, false, Option, none, some,
  List, [], ◌∷◌, arith, ok, err, lookup, In, is_some,
}
use wppconnect_server_go.Sessions.{
  Settings, no_settings, Record, blank, initializing, connected, open_failed, too_large, Handle,
  Manager, Outside, valid_name,
}
use wppconnect_server_go.Sessions.Records.{
  read_record, write_record, validate_settings, oversized_lem,
}
use wppconnect_server_go.Sessions.Opening.{
  Answers, open_handle, all_closed, open_ok, open_fails, Opened,
}
use wppconnect_server_go.Sessions.Lifecycle.{
  Starting, start, start_locked, close, logout, update_settings, on_event, connects, drain,
}
use wppconnect_server_go.Sessions.Restore.{Turn, Restored, restore_one, restore_list}
use wppconnect_server_go.Sessions.Invariant.{IsSound}
use wppconnect_server_go.Sessions.Saves.{IsCodec}
use wppconnect_server_go.Sessions.Reach.{Call, starts, reports, updates, step, run, run-IsSound}
use wppconnect_server_go.Sessions.Drains.{drain_lem}
use wppconnect_server_go.Sessions.Resume.{restore_honors}
use wppconnect_server_go.Sessions.Lasting.{close_lasts, logout_lasts}

-- An encoder that writes a record's four flags and its proxy.
abbrev flag : Bool → Char
flag true = "1"
flag false = "0"

abbrev flag_of : Char → Bool
flag_of c = code c == 49

flag_of-flag : (b : Bool) → flag_of (flag b) ≡ b
flag_of-flag true = refl
flag_of-flag false = refl

abbrev text_of : Record → String
text_of r =
    flag r.restore
    ::: (flag r.revoked
        ::: (flag r.settings.auto_read
            ::: (flag r.settings.always_online ::: r.settings.proxy_url)))

abbrev read_text : Record → String → Option Record
read_text r (a ::: (b ::: (c ::: (d ::: url)))) = some (record {
  name = r.name;
  restore = flag_of a;
  revoked = flag_of b;
  settings = record { auto_read = flag_of c; always_online = flag_of d; proxy_url = url };
})
read_text r _ = none

abbrev outside : Outside
outside = record {
  is_local = λ _. true;
  encode = λ r. some (text_of r);
  decode = read_text;
  parse = λ _. some ("http", "proxy");
}

outside-IsCodec : IsCodec outside
outside-IsCodec r b e =
    let t : text_of r ≡ b = ground (arith, e) in
    let law : read_text (blank r.name) (text_of r) ≡ some r =
      rw
        (
          flag_of-flag r.restore,
          flag_of-flag r.revoked,
          flag_of-flag r.settings.auto_read,
          flag_of-flag r.settings.always_online,
        )
        refl in
    subst (λ x. read_text (blank r.name) x ≡ some r) t law

abbrev good : Answers
good = record {
  container_fails = false;
  read_fails = false;
  all_devices = some 1;
  delete_fails = λ _. false;
  first_device = some true;
  index_fails = false;
  proxy_fails = false;
  archive_fails = false;
}

abbrev smooth : Starting
smooth = record {
  request_done = false;
  answers = good;
  read_fails = false;
  write_fails = false;
  qr_fails = false;
  connect_fails = false;
  life_done = false;
}

abbrev fresh : Manager
fresh = record {
  sessions = [];
  files = [];
  stopping = false;
  canceled = false;
  opened = 0;
  released = [];
}

fresh-IsSound : IsSound outside fresh
fresh-IsSound = record {
  each = λ j h p. absurd (ground (arith, p));
  one_name = λ j j' h h' p. absurd (ground (arith, p));
  accounted = λ k q. absurd (omega (arith, q));
  keyed = tt;
  few = omega arith;
  ended = tt;
}

abbrev quiet : Settings
quiet = record { auto_read = true; always_online = false; proxy_url = "http://proxy" }

abbrev day : List Call
day =
    starts smooth "alpha"
    ∷ reports connects "alpha"
    ∷ updates false false "alpha" quiet
    ∷ starts (record smooth { connect_fails = true }) "beta"
    ∷ []

abbrev alpha : Handle
alpha = record {
  key = 0;
  name = "alpha";
  status = connected;
  code = "";
  paired = true;
  closing = false;
  settings = quiet;
}

abbrev evening : Manager
evening = record {
  sessions = ("alpha", alpha) ∷ [];
  files = ("alpha", "1010http://proxy") ∷ ("beta", "1000") ∷ [];
  stopping = false;
  canceled = false;
  opened = 2;
  released =
      record alpha {
        key = 1;
        name = "beta";
        status = initializing;
        closing = true;
        settings = no_settings;
      }
      ∷ [];
}

-- One session is started, connected and given settings; the start of another fails.
day_result : run outside day fresh ≡ evening
unfolding run step start start_locked open_handle read_record write_record update_settings
    validate_settings on_event valid_name
day_result = refl

run-IsSound_example : IsSound outside (run outside day fresh)
run-IsSound_example = run-IsSound outside day fresh outside-IsCodec fresh-IsSound

evening-IsSound : IsSound outside evening
evening-IsSound = subst (IsSound outside) day_result run-IsSound_example

drain_lem_example :
    ((drain evening).sessions ≡ [])
    × ((drain evening).files ≡ evening.files)
    × ((k : ℕ) → k < 2 → (g : Handle) × In g (drain evening).released × (g.key ≡ k))
drain_lem_example = drain_lem outside evening evening-IsSound

abbrev nothing : Restored
nothing = record { count = 0; failures = []; stopped = none }

abbrev one_turn : String → Turn
one_turn _ = record {
  request_done = false;
  read_fails = false;
  stat_fails = false;
  container_fails = false;
  all_devices = some 1;
  close_fails = false;
  starting = smooth;
}

abbrev both : List String
both = "alpha" ∷ "beta" ∷ []

close_ok : (close outside false false false "alpha" evening).0 ≡ ok tt
unfolding close read_record write_record valid_name
close_ok = refl

close_lasts_example :
    lookup "alpha"
      (restore_list outside one_turn both nothing
        (close outside false false false "alpha" evening).1).1.sessions
    ≡ none
close_lasts_example =
    close_lasts outside false false false "alpha" evening one_turn both nothing outside-IsCodec
      close_ok (λ _. refl)

logout_ok : (logout outside true false false false "alpha" evening).0 ≡ ok tt
unfolding logout read_record write_record valid_name
logout_ok = refl

logout_lasts_example :
    lookup "alpha"
      (restore_list outside one_turn both nothing
        (logout outside true false false false "alpha" evening).1).1.sessions
    ≡ none
logout_lasts_example =
    logout_lasts outside true false false false "alpha" evening one_turn both nothing
      outside-IsCodec logout_ok (λ _. refl)

-- A restart: alpha was closed and beta was not.
abbrev closed_files : Manager
closed_files = record fresh { files = ("alpha", "0010") ∷ ("beta", "1000") ∷ [] }

restore_honors_example :
    lookup "alpha" (restore_list outside one_turn both nothing closed_files).1.sessions ≡ none
restore_honors_example =
    restore_honors outside one_turn both nothing "alpha" closed_files (λ _. refl)
      (
        record {
          name = "alpha";
          restore = false;
          revoked = false;
          settings = record no_settings { auto_read = true };
        },
        "0010",
        refl,
        refl,
        inl refl,
      )

restores_beta :
    ((restore_list outside one_turn both nothing closed_files).0.count ≡ 1)
    × (is_some (lookup "beta" (restore_list outside one_turn both nothing closed_files).1.sessions)
        ≡ true)
unfolding restore_list restore_one start_locked open_handle read_record write_record
    validate_settings valid_name
restores_beta = (refl, refl)

round_trip_file : write_record outside false (blank "alpha") [] ≡ ok (("alpha", "0000") ∷ [])
unfolding write_record valid_name
round_trip_file = refl

abbrev no_archive : Answers
no_archive = record good { archive_fails = true }

archive_fails_result : (open_handle outside no_archive 0 "alpha" []).0 ≡ err open_failed
unfolding open_handle read_record validate_settings valid_name
archive_fails_result = refl

open_fails_example : (open_handle outside no_archive 0 "alpha" []).1 ≡ all_closed
open_fails_example = open_fails outside no_archive 0 "alpha" [] open_failed archive_fails_result

open_ok_result :
    (open_handle outside good 0 "alpha" []).0
    ≡ ok (record alpha { status = initializing; settings = no_settings })
unfolding open_handle read_record validate_settings valid_name
open_ok_result = refl

open_ok_example :
    Opened outside good 0 "alpha" []
      (record alpha { status = initializing; settings = no_settings })
      (open_handle outside good 0 "alpha" []).1
open_ok_example =
    open_ok outside good 0 "alpha" []
      (record alpha { status = initializing; settings = no_settings }) open_ok_result

names :
    (valid_name outside "a_B-9" ≡ true)
    × (valid_name outside "" ≡ false)
    × (valid_name outside "../x" ≡ false)
unfolding valid_name
names = (refl, refl, refl)

-- An encoder that escapes a character as encoding/json escapes `&`, and a proxy of 1,024 of those.
abbrev doubled : ℕ → String → String
doubled zero s = s
doubled (suc n) s = doubled n (concat s s)

abbrev escaping : Outside
escaping = record outside { encode = λ r. some (doubled 10 "\\u0026") }

abbrev long_files : List (String × String)
long_files = ("alpha", doubled 10 "\\u0026") ∷ []

named_alpha : valid_name escaping "alpha" ≡ true
unfolding valid_name
named_alpha = refl

oversized_lem_example :
    (write_record escaping false (blank "alpha") [] ≡ ok long_files)
    × (read_record escaping false "alpha" long_files ≡ err too_large)
oversized_lem_example =
    oversized_lem escaping (blank "alpha") (doubled 10 "\\u0026") [] named_alpha refl (omega arith)
