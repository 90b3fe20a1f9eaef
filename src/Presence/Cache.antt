-- ===== src/Presence/Cache.antt =====
-- The cache of presences: its bound, its expiry and what it answers.
use wppconnect_server_go.Prelude.{
  ℕ, zero, suc, ◌-◌, ◌≤◌, ◌<◌, String, ◌≡◌, refl, inl, inr, true, not, none, some, List, [], ◌∷◌,
  arith, leb, if◌then◌else◌, Bool-cases, length, lookup, insert, length-insert, length-remove-le,
  lookup-insert_same, IsMap, insert-IsMap, remove-IsMap,
}
use wppconnect_server_go.Presence.{
  max_chats, presence_ttl, Presence, Observation, is_stale, drop_stale, drop_one, make_room,
  observe, get_presence,
}
use wppconnect_server_go.Presence.Commands.{drop_one-IsMap}

pub record IsCache (entries : List (String × Presence)) : Type 0 where
  pub map : IsMap entries
  pub few : length entries ≤ max_chats

drop_stale-absent :
    (now : ℕ) (k : String) (m : List (String × Presence))
    → lookup k m ≡ none
    → lookup k (drop_stale now m) ≡ none
drop_stale-absent now k [] h = refl
drop_stale-absent now k ((j, p) ∷ m) h = ground (arith, drop_stale-absent now k m)

drop_stale-IsMap : (now : ℕ) (m : List (String × Presence)) → IsMap m → IsMap (drop_stale now m)
drop_stale-IsMap now [] h = tt
drop_stale-IsMap now ((j, p) ∷ m) h = elim (Bool-cases (is_stale now p)) [
  | inl e ↦ rw e (drop_stale-IsMap now m h.1)
  | inr e ↦ rw e (drop_stale-absent now j m h.0, drop_stale-IsMap now m h.1)
]

length-drop_stale-le :
    (now : ℕ) (m : List (String × Presence)) → length (drop_stale now m) ≤ length m
length-drop_stale-le now [] = omega arith
length-drop_stale-le now ((j, p) ∷ m) = ground (arith, length-drop_stale-le now m)

length-drop_one : (n : ℕ) (m : List (String × Presence)) → length (drop_one n m) ≡ length m - 1
length-drop_one n [] = refl
length-drop_one n (x ∷ []) = refl
length-drop_one zero (x ∷ y ∷ m) = omega arith
length-drop_one (suc n) (x ∷ y ∷ m) = omega (arith, length-drop_one n (y ∷ m))

make_room_lem :
    (now victim : ℕ) (m : List (String × Presence))
    → IsCache m
    → IsMap (make_room now victim m) × (length (make_room now victim m) < max_chats)
make_room_lem now victim m v = elim (Bool-cases (leb max_chats (length m))) [
  | inr e ↦ rw e (v.map, ground (arith, e))
  | inl e ↦ elim (Bool-cases (leb max_chats (length (drop_stale now m)))) [
    | inr f ↦ rw (e, f) (drop_stale-IsMap now m v.map, ground (arith, f))
    | inl f ↦
        rw (e, f)
          (
            drop_one-IsMap victim (drop_stale now m) (drop_stale-IsMap now m v.map),
            omega (
              arith,
              length-drop_one victim (drop_stale now m),
              length-drop_stale-le now m,
              v.few,
            ),
          )
  ]
]

-- The cache keeps one entry for each sender and never more than 10,000, and what was observed last of a
-- sender is what it answers, for five minutes and no longer; at the end of this time the answer is that
-- nothing is known.
pub observe_lem :
    (now later victim : ℕ) (e : Observation) (entries : List (String × Presence))
    → e.is_kept ≡ true
    → IsCache entries
    → IsCache (observe now victim (some e) entries)
      × IsCache (get_presence later e.key (observe now victim (some e) entries)).1
      × ((get_presence later e.key (observe now victim (some e) entries)).0 ≡ (
          if leb presence_ttl (later - now)
          then none
          else some
              (record { online = not e.unavailable; last_seen = e.last_seen; observed = now })))
unfolding observe get_presence
observe_lem now later victim e entries kept v =
    let p : Presence = record {
      online = not e.unavailable;
      last_seen = e.last_seen;
      observed = now;
    } in
    let r = make_room_lem now victim entries v in
    let m = insert e.key p (make_room now victim entries) in
    let w : IsCache m = record {
      map = insert-IsMap e.key p (make_room now victim entries) r.0;
      few = ground (arith, r.1, length-insert e.key p (make_room now victim entries));
    } in
    let found = lookup-insert_same e.key p (make_room now victim entries) in
    elim (Bool-cases (leb presence_ttl (later - now))) [
      | inl s ↦
          rw (kept, found, s)
            (
              w,
              record {
                map = remove-IsMap e.key m w.map;
                few = omega (arith, w.few, length-remove-le e.key m);
              },
              refl,
            )
      | inr s ↦ rw (kept, found, s) (w, w, refl)
    ]
