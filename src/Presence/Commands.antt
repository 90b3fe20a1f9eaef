-- ===== src/Presence/Commands.antt =====
-- A delayed pause does not overwrite a more recent command.
use wppconnect_server_go.Prelude.{
  ℕ, zero, suc, ◌+◌, ◌^◌, ◌≤◌, ◌<◌, String, ◌≡◌, refl, sym, ap, subst, ◌∙◌, ◌⊎◌, inl, inr, Bool,
  true, false, not, ◌||◌, none, some, List, [], ◌∷◌, arith, leb, str_eq, eq_iff, ◌==◌,
  if◌then◌else◌, Bool-cases, length, lookup, insert, lookup-insert, lookup-insert_same,
  lookup-remove, IsMap, insert-IsMap, remove-IsMap,
}
use wppconnect_server_go.Presence.{
  max_chats, drop_one, State, next_generation, begin_signal, or_zero, end_signal, reset_presence,
  close_state,
}

module _ {ℓ} {V : Type ℓ} where
  drop_one-absent :
      (k : String) (n : ℕ) (m : List (String × V))
      → lookup k m ≡ none
      → lookup k (drop_one n m) ≡ none
  drop_one-absent k n [] h = refl
  drop_one-absent k n (x ∷ []) h = refl
  drop_one-absent k zero (x ∷ y ∷ m) h = ground (arith, h)
  drop_one-absent k (suc n) (x ∷ y ∷ m) h = ground (arith, h, drop_one-absent k n (y ∷ m))

  pub drop_one-IsMap : (n : ℕ) (m : List (String × V)) → IsMap m → IsMap (drop_one n m)
  drop_one-IsMap n [] h = tt
  drop_one-IsMap n (x ∷ []) h = tt
  drop_one-IsMap zero (x ∷ y ∷ m) h = h.1
  drop_one-IsMap (suc n) (x ∷ y ∷ m) h =
      (drop_one-absent x.0 n (y ∷ m) h.0, drop_one-IsMap n (y ∷ m) h.1)

  -- What is left of an entry when one entry is dropped.
  drop_one-lookup :
      (k : String) (n : ℕ) (m : List (String × V))
      → IsMap m
      → (lookup k (drop_one n m) ≡ none) ⊎ (lookup k (drop_one n m) ≡ lookup k m)
  drop_one-lookup k n [] u = inl refl
  drop_one-lookup k n (x ∷ []) u = inl refl
  drop_one-lookup k zero (x ∷ y ∷ m) u = elim (Bool-cases (str_eq x.0 k)) [
    | inl e ↦ inl (subst (λ j. lookup j (y ∷ m) ≡ none) ((eq_iff x.0 k).0 e) u.0)
    | inr e ↦ inr (rw e refl)
  ]
  drop_one-lookup k (suc n) (x ∷ y ∷ m) u = elim (Bool-cases (str_eq x.0 k)) [
    | inl e ↦ inr (rw e refl)
    | inr e ↦ rw e (drop_one-lookup k n (y ∷ m) u.1)
  ]

-- One use of the lock `commands`.
pub data CommandStep (s s' : State) : Type 0 where
  begins :
      (cancelled sends : Bool) (victim : ℕ) (jid : String)
      → (begin_signal cancelled sends victim jid s).2 ≡ s'
      → CommandStep s s'
  ends : (jid : String) (generation : ℕ) → (end_signal jid generation s).1 ≡ s' → CommandStep s s'
  resets : reset_presence s ≡ s' → CommandStep s s'
  closes : close_state s ≡ s' → CommandStep s s'

pub data CommandRun (first : State) : State → Type 0 where
  here : CommandRun first first
  next : {s s' : State} → CommandRun first s → CommandStep s s' → CommandRun first s'

abbrev pub run_length : {first s : State} → CommandRun first s → ℕ
run_length here = 0
run_length (next r t) = run_length r + 1

-- The last command of the chat, if it still owns it, is later than generation `g`, and no generation is
-- later than `n`.
record IsLater (g n : ℕ) (jid : String) (s : State) : Type 0 where
  reached : g ≤ s.generation
  bounded : s.generation ≤ n
  map : IsMap s.owners
  owner : (lookup jid s.owners ≡ none) ⊎ ((v : ℕ) × (lookup jid s.owners ≡ some v) × (g < v))

record IsReached (g n : ℕ) (s : State) : Type 0 where
  reached : g ≤ s.generation
  bounded : s.generation ≤ n
  map : IsMap s.owners

abbrev room : ℕ → State → List (String × ℕ)
room victim s = if leb max_chats (length s.owners) then drop_one victim s.owners else s.owners

room-IsMap : (victim : ℕ) (s : State) → IsMap s.owners → IsMap (room victim s)
room-IsMap victim s u = elim (Bool-cases (leb max_chats (length s.owners))) [
  | inl e ↦ rw e (drop_one-IsMap victim s.owners u)
  | inr e ↦ rw e u
]

room-lookup :
    (jid : String) (victim : ℕ) (s : State)
    → IsMap s.owners
    → (lookup jid (room victim s) ≡ none) ⊎ (lookup jid (room victim s) ≡ lookup jid s.owners)
room-lookup jid victim s u = elim (Bool-cases (leb max_chats (length s.owners))) [
  | inl e ↦ rw e (drop_one-lookup jid victim s.owners u)
  | inr e ↦ inr (rw e refl)
]

next_generation_lem : (g : ℕ) → g + 1 < 2 ^ 64 → next_generation g ≡ g + 1
next_generation_lem g h = omega arith

-- A beginning command either changes nothing or takes the next generation.
begin_cases :
    (cancelled sends : Bool) (victim : ℕ) (jid : String) (s : State)
    → s.generation + 1 < 2 ^ 64
    → ((begin_signal cancelled sends victim jid s).2 ≡ s)
      ⊎ ((begin_signal cancelled sends victim jid s).2 ≡ record s {
        generation = s.generation + 1;
        owners = insert jid (s.generation + 1) (room victim s);
      })
unfolding begin_signal
begin_cases cancelled sends victim jid s small = elim (Bool-cases s.closed) [
  | inl e ↦ inl (rw e refl)
  | inr e ↦ elim (Bool-cases cancelled) [
    | inl c ↦ inl (rw (e, c) refl)
    | inr c ↦ elim (Bool-cases sends) [
      | inr d ↦ inl (rw (e, c, d) refl)
      | inl d ↦ inr (rw (e, c, d, next_generation_lem s.generation small) refl)
    ]
  ]
]

begin_ok :
    (cancelled sends : Bool) (victim : ℕ) (jid : String) (s s' : State) (g : ℕ)
    → s.generation + 1 < 2 ^ 64
    → begin_signal cancelled sends victim jid s ≡ (none, g, s')
    → (g ≡ s.generation + 1)
      × (s.closed ≡ false)
      × (s' ≡ record s {
        generation = s.generation + 1;
        owners = insert jid (s.generation + 1) (room victim s);
      })
unfolding begin_signal
begin_ok cancelled sends victim jid s s' g small h =
    let same = next_generation_lem s.generation small in
    (ground (arith, h), ground (arith, h), ground (arith, h, same))

wider : {g n : ℕ} {s : State} → IsReached g n s → IsReached g (n + 1) s
wider v = record { reached = v.reached; bounded = omega (arith, v.bounded); map = v.map }

CommandStep-IsReached :
    (g n : ℕ) (s s' : State)
    → n + 1 < 2 ^ 64
    → CommandStep s s'
    → IsReached g n s
    → IsReached g (n + 1) s'
unfolding end_signal reset_presence close_state
CommandStep-IsReached g n s s' small (begins cancelled sends victim jid h) v =
    elim (begin_cases cancelled sends victim jid s (omega (arith, v.bounded))) [
      | inl e ↦ subst (IsReached g (n + 1)) (sym e ∙ h) (wider v)
      | inr e ↦ subst (IsReached g (n + 1)) (sym e ∙ h) (record {
        reached = omega (arith, v.reached);
        bounded = omega (arith, v.bounded);
        map = insert-IsMap jid (s.generation + 1) (room victim s) (room-IsMap victim s v.map);
      })
    ]
CommandStep-IsReached g n s s' small (ends jid k h) v =
    subst (IsReached g (n + 1)) h
      (elim (Bool-cases (s.closed || not (or_zero (lookup jid s.owners) == k))) [
        | inl e ↦ rw e (wider v)
        | inr e ↦ rw e (record {
          reached = v.reached;
          bounded = omega (arith, v.bounded);
          map = remove-IsMap jid s.owners v.map;
        })
      ])
CommandStep-IsReached g n s s' small (resets h) v =
    subst (IsReached g (n + 1)) h
      (record { reached = v.reached; bounded = omega (arith, v.bounded); map = tt })
CommandStep-IsReached g n s s' small (closes h) v =
    subst (IsReached g (n + 1)) h
      (record { reached = v.reached; bounded = omega (arith, v.bounded); map = tt })

CommandRun-IsReached :
    (g n : ℕ) {first s : State}
    → IsReached g n first
    → (r : CommandRun first s) → n + run_length r < 2 ^ 64
    → IsReached g (n + run_length r) s
CommandRun-IsReached g n {first = first} v here small =
    subst (λ m. IsReached g m first) (plus_zero n) v
  where
    plus_zero : (n : ℕ) → n ≡ n + 0
    plus_zero n = omega arith
CommandRun-IsReached g n v (next {s = a} {s' = b} r t) small =
    subst (λ m. IsReached g m b) (assoc n (run_length r))
      (CommandStep-IsReached g (n + run_length r) a b (omega arith) t
        (CommandRun-IsReached g n v r (omega arith)))
  where
    assoc : (n m : ℕ) → n + m + 1 ≡ n + (m + 1)
    assoc n m = omega arith

still : {g n : ℕ} {jid : String} {s : State} → IsLater g n jid s → IsLater g (n + 1) jid s
still v = record {
  reached = v.reached;
  bounded = omega (arith, v.bounded);
  map = v.map;
  owner = v.owner;
}

CommandStep-IsLater :
    (g n : ℕ) (jid : String) (s s' : State)
    → n + 1 < 2 ^ 64
    → CommandStep s s'
    → IsLater g n jid s
    → IsLater g (n + 1) jid s'
unfolding end_signal reset_presence close_state
CommandStep-IsLater g n jid s s' small (begins cancelled sends victim other h) v =
    elim (begin_cases cancelled sends victim other s (omega (arith, v.bounded))) [
      | inl e ↦ subst (IsLater g (n + 1) jid) (sym e ∙ h) (still v)
      | inr e ↦ subst (IsLater g (n + 1) jid) (sym e ∙ h) (record {
        reached = omega (arith, v.reached);
        bounded = omega (arith, v.bounded);
        map = insert-IsMap other (s.generation + 1) (room victim s) (room-IsMap victim s v.map);
        owner = elim (Bool-cases (str_eq other jid)) [
          | inl q ↦ inr (
            s.generation + 1,
            lookup-insert other jid (s.generation + 1) (room victim s) ∙ rw q refl,
            omega (arith, v.reached),
          )
          | inr q ↦
              let outside =
                lookup-insert other jid (s.generation + 1) (room victim s) ∙ rw q refl in
              elim (room-lookup jid victim s v.map) [
                | inl gone ↦ inl (outside ∙ gone)
                | inr kept ↦ elim v.owner [
                  | inl o ↦ inl (outside ∙ kept ∙ o)
                  | inr (w, o, l) ↦ inr (w, outside ∙ kept ∙ o, l)
                ]
              ]
        ];
      })
    ]
CommandStep-IsLater g n jid s s' small (ends other k h) v =
    subst (IsLater g (n + 1) jid) h
      (elim (Bool-cases (s.closed || not (or_zero (lookup other s.owners) == k))) [
        | inl e ↦ rw e (still v)
        | inr e ↦ rw e (record {
          reached = v.reached;
          bounded = omega (arith, v.bounded);
          map = remove-IsMap other s.owners v.map;
          owner = elim (Bool-cases (str_eq other jid)) [
            | inl q ↦ inl (lookup-remove other jid s.owners ∙ rw q refl)
            | inr q ↦
                let same = lookup-remove other jid s.owners ∙ rw q refl in
                elim v.owner [ inl o ↦ inl (same ∙ o) | inr (w, o, l) ↦ inr (w, same ∙ o, l) ]
          ];
        })
      ])
CommandStep-IsLater g n jid s s' small (resets h) v =
    subst (IsLater g (n + 1) jid) h (record {
      reached = v.reached;
      bounded = omega (arith, v.bounded);
      map = tt;
      owner = inl refl;
    })
CommandStep-IsLater g n jid s s' small (closes h) v =
    subst (IsLater g (n + 1) jid) h (record {
      reached = v.reached;
      bounded = omega (arith, v.bounded);
      map = tt;
      owner = inl refl;
    })

CommandRun-IsLater :
    (g n : ℕ) (jid : String) {first s : State}
    → IsLater g n jid first
    → (r : CommandRun first s) → n + run_length r < 2 ^ 64
    → IsLater g (n + run_length r) jid s
CommandRun-IsLater g n jid {first = first} v here small =
    subst (λ m. IsLater g m jid first) (plus_zero n) v
  where
    plus_zero : (n : ℕ) → n ≡ n + 0
    plus_zero n = omega arith
CommandRun-IsLater g n jid v (next {s = a} {s' = b} r t) small =
    subst (λ m. IsLater g m jid b) (assoc n (run_length r))
      (CommandStep-IsLater g (n + run_length r) jid a b (omega arith) t
        (CommandRun-IsLater g n jid v r (omega arith)))
  where
    assoc : (n m : ℕ) → n + m + 1 ≡ n + (m + 1)
    assoc n m = omega arith

-- When the timer of a command fires at once, its pause is sent. When a later command of the same chat
-- was sent in between, it is not, whatever other commands, ends, resets and closings came before, between
-- and after the two, and although a full map drops entries. The generation starts so far below 2^64
-- that the uses of the lock in between cannot make it wrap around.
pub newer_command_wins :
    (c1 d1 c2 d2 : Bool) (n1 n2 : ℕ) (jid : String) (g1 g2 : ℕ) (s0 s1 s2 s3 s4 : State)
    → IsMap s0.owners
    → begin_signal c1 d1 n1 jid s0 ≡ (none, g1, s1)
    → (between : CommandRun s1 s2) → begin_signal c2 d2 n2 jid s2 ≡ (none, g2, s3)
    → (after : CommandRun s3 s4)
    → s0.generation + run_length between + run_length after + 2 < 2 ^ 64
    → ((end_signal jid g1 s1).0 ≡ true) × (g1 < g2) × ((end_signal jid g1 s4).0 ≡ false)
unfolding end_signal
newer_command_wins c1 d1 c2 d2 n1 n2 jid g1 g2 s0 s1 s2 s3 s4 u b1 r b2 t small =
    let (g1_is, live, s1_is) = begin_ok c1 d1 n1 jid s0 s1 g1 (omega arith) b1 in
    let n = s0.generation + 1 in
    let first : IsReached g1 n s1 = subst (IsReached g1 n) (sym s1_is) (record {
      reached = omega (arith, g1_is);
      bounded = omega arith;
      map = insert-IsMap jid (s0.generation + 1) (room n1 s0) (room-IsMap n1 s0 u);
    }) in
    let at2 = CommandRun-IsReached g1 n first r (omega arith) in
    let m = n + run_length r in
    let (g2_is, live2, s3_is) = begin_ok c2 d2 n2 jid s2 s3 g2 (omega (arith, at2.bounded)) b2 in
    let later : IsLater g1 (m + 1) jid s3 = subst (IsLater g1 (m + 1) jid) (sym s3_is) (record {
      reached = omega (arith, at2.reached);
      bounded = omega (arith, at2.bounded);
      map = insert-IsMap jid (s2.generation + 1) (room n2 s2) (room-IsMap n2 s2 at2.map);
      owner = inr (
        s2.generation + 1,
        lookup-insert_same jid (s2.generation + 1) (room n2 s2),
        omega (arith, at2.reached),
      );
    }) in
    let last = CommandRun-IsLater g1 (m + 1) jid later t (omega arith) in
    (
      subst (λ (x : State). (end_signal jid g1 x).0 ≡ true) (sym s1_is)
          (fires live (lookup-insert_same jid (s0.generation + 1) (room n1 s0)) g1_is),
      omega (arith, g2_is, at2.reached),
      elim last.owner [
        | inl o ↦ silent 0 (ap or_zero o) (differs 0 (inl (omega (arith, g1_is))))
        | inr (w, o, l) ↦ silent w (ap or_zero o) (differs w (inr l))
      ],
    )
  where
    fires :
        s0.closed ≡ false
        → lookup jid (insert jid (s0.generation + 1) (room n1 s0)) ≡ some (s0.generation + 1)
        → g1 ≡ s0.generation + 1
        → (end_signal jid g1 (record s0 {
          generation = s0.generation + 1;
          owners = insert jid (s0.generation + 1) (room n1 s0);
        })).0
          ≡ true
    fires live found e = rw (live, found) (ground (arith, e))

    differs : (v : ℕ) → (v < g1) ⊎ (g1 < v) → (v == g1) ≡ false
    differs v h = ground arith

    silent :
        (v : ℕ)
        → or_zero (lookup jid s4.owners) ≡ v
        → (v == g1) ≡ false
        → (end_signal jid g1 s4).0 ≡ false
    silent v e d = elim (Bool-cases s4.closed) [ inl c ↦ rw c refl | inr c ↦ rw (c, e, d) refl ]
