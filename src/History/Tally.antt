-- ===== src/History/Tally.antt =====
-- The count of a poll's votes.
use wppconnect_server_go.Prelude.{
  ℕ, ◌+◌, String, ◌≡◌, refl, sym, ap, subst, ◌∙◌, ◌⊎◌, inl, inr, Bool, true, false, not, ◌&&◌,
  Option, Option-cases, none, some, List, [], ◌∷◌, arith, str_eq, eq_iff, Result-cases, ok, Faults,
  All, All-of_In, All-In, In, Bool-cases, sum_by, lookup, insert, lookup-insert, if◌then◌else◌,
}
use wppconnect_server_go.Table.{select, exists, count}
use wppconnect_server_go.Table.Laws.{exists-In, exists_sound}
use wppconnect_server_go.History.{Vote, Store, Outside}
use wppconnect_server_go.History.Reads.{get}
use wppconnect_server_go.History.Polls.{
  poll_choices, key_of, Counts, or_zero, keys_of, zeros, bump, tally, tally_all, Results,
  poll_results,
}

-- A key counts for the choice that it names.
abbrev hits : List (String × String) → String → String → Bool
hits keys c k = elim (lookup k keys) [ none ↦ false | some name ↦ str_eq name c ]

tally_lem :
    (keys : List (String × String)) (c : String) (ks : List String) (counts : Counts) (n : ℕ)
    → lookup c counts ≡ some n
    → lookup c (tally keys ks counts) ≡ some (n + count (hits keys c) ks)
unfolding tally
tally_lem keys c [] counts n h = h ∙ ap some (plus_zero n)
  where
    plus_zero : (n : ℕ) → n ≡ n + 0
    plus_zero n = omega arith
tally_lem keys c (k ∷ ks) counts n h = elim (Option-cases (lookup k keys)) [
  | inl e ↦
      rw (hits, e) (tally_lem keys c ks counts n h ∙ ap some (none_more n (count (hits keys c) ks)))
  | inr (name, e) ↦ elim (Bool-cases (str_eq name c)) [
    | inr q ↦
        rw (hits, e, q)
          (tally_lem keys c ks (bump (some name) counts) n
              (ground (arith, h, q, lookup-insert name c (or_zero (lookup name counts) + 1) counts))
            ∙ ap some (none_more n (count (hits keys c) ks)))
    | inl q ↦
        rw (hits, e, q)
          (tally_lem keys c ks (bump (some name) counts) (n + 1) (
              ground (
                arith,
                h,
                q,
                eq_iff name c,
                lookup-insert name c (or_zero (lookup name counts) + 1) counts,
              ))
            ∙ ap some (shift n (count (hits keys c) ks)))
  ]
]
  where
    shift : (n m : ℕ) → n + 1 + m ≡ n + (1 + m)
    shift n m = omega arith

    none_more : (n m : ℕ) → n + m ≡ n + (0 + m)
    none_more n m = omega arith

tally_all_lem :
    (keys : List (String × String)) (c : String) (cast : List Vote) (counts : Counts) (n : ℕ)
    → lookup c counts ≡ some n
    → lookup c (tally_all keys cast counts)
      ≡ some (n + sum_by (λ v. count (hits keys c) v.choices) cast)
unfolding tally_all
tally_all_lem keys c [] counts n h = h ∙ ap some (plus_zero n)
  where
    plus_zero : (n : ℕ) → n ≡ n + 0
    plus_zero n = omega arith
tally_all_lem keys c (v ∷ cast) counts n h =
    tally_all_lem keys c cast (tally keys v.choices counts) (n + count (hits keys c) v.choices)
      (tally_lem keys c v.choices counts n h)
    ∙ ap some
        (assoc n (count (hits keys c) v.choices) (sum_by (λ v. count (hits keys c) v.choices) cast))
  where
    assoc : (a b d : ℕ) → a + b + d ≡ a + (b + d)
    assoc a b d = omega arith

zeros-keep :
    (c : String) (cs : List String) (counts : Counts)
    → lookup c counts ≡ some 0
    → lookup c (zeros cs counts) ≡ some 0
zeros-keep c [] counts h = h
zeros-keep c (d ∷ cs) counts h =
    zeros-keep c cs (insert d 0 counts) (ground (arith, h, lookup-insert d c 0 counts))

zeros_lem :
    (c : String) (cs : List String) (counts : Counts)
    → In c cs
    → lookup c (zeros cs counts) ≡ some 0
zeros_lem c [] counts m = absurd m
zeros_lem c (d ∷ cs) counts (inl e) =
    zeros-keep c cs (insert d 0 counts) (ground (arith, lookup-insert d c 0 counts, eq_iff d c, e))
zeros_lem c (d ∷ cs) counts (inr m) = zeros_lem c cs (insert d 0 counts) m

zero_plus : (n : ℕ) → 0 + n ≡ n
zero_plus n = omega arith

module _ (out : Outside) where
  -- A key is that of a choice, and then of one that it is the hash of, or it is not in the map.
  keys_of_lem :
      (k : String) (cs : List String) (keys : List (String × String))
      → ((c : String) × In c cs × (key_of out c ≡ k) × (lookup k (keys_of out cs keys) ≡ some c))
        ⊎ (All (λ c. str_eq (key_of out c) k ≡ false) cs
            × (lookup k (keys_of out cs keys) ≡ lookup k keys))
  keys_of_lem k [] keys = inr (tt, refl)
  keys_of_lem k (c ∷ cs) keys = elim (keys_of_lem k cs (insert (key_of out c) c keys)) [
    | inl (d, m, e, h) ↦ inl (d, inr m, e, h)
    | inr (a, h) ↦ elim (Bool-cases (str_eq (key_of out c) k)) [
      | inl e ↦ inl (
        c,
        inl refl,
        (eq_iff (key_of out c) k).0 e,
        h
            ∙ lookup-insert (key_of out c) k c keys
            ∙ picks (str_eq (key_of out c) k) e (some c) (lookup k keys),
      )
      | inr e ↦ inr (
        (e, a),
        h
            ∙ lookup-insert (key_of out c) k c keys
            ∙ skips (str_eq (key_of out c) k) e (some c) (lookup k keys),
      )
    ]
  ]
    where
      picks : (b : Bool) → b ≡ true → (x y : Option String) → (if b then x else y) ≡ x
      picks b e x y = rw e refl

      skips : (b : Bool) → b ≡ false → (x y : Option String) → (if b then x else y) ≡ y
      skips b e x y = rw e refl

  -- Another text with the hash of this one.
  abbrev pub clashes : String → String → Bool
  clashes c d = not (str_eq d c) && str_eq (key_of out d) (key_of out c)

  -- Where no other choice has its hash, a key counts for a choice exactly if it is its hash.
  hits_lem :
      (choices : List String) (c k : String)
      → exists (clashes c) choices ≡ false
      → In c choices
      → hits (keys_of out choices []) c k ≡ str_eq (key_of out c) k
  hits_lem choices c k sole m = elim (keys_of_lem k choices []) [
    | inl (d, there, e, h) ↦ rw (hits, h) (same d there e)
    | inr (a, h) ↦ rw (hits, h) (sym (All-In (λ d. str_eq (key_of out d) k ≡ false) c choices a m))
  ]
    where
      same : (d : String) → In d choices → key_of out d ≡ k → str_eq d c ≡ str_eq (key_of out c) k
      same d there e = elim (Bool-cases (str_eq d c)) [
        | inl q ↦
            q ∙ sym ((eq_iff (key_of out c) k).1 (ap (key_of out) (sym ((eq_iff d c).0 q)) ∙ e))
        | inr q ↦ elim (Bool-cases (str_eq (key_of out c) k)) [
          | inr z ↦ q ∙ sym z
          | inl z ↦
              let alike : str_eq (key_of out d) (key_of out c) ≡ true =
                (eq_iff (key_of out d) (key_of out c)).1
                  (e ∙ sym ((eq_iff (key_of out c) k).0 z)) in
              let found = exists-In (clashes c) d choices there (rw (q, alike) refl) in
              absurd (ground (arith, found, sole))
        ]
      ]

  count-same :
      (p q : String → Bool) (ks : List String)
      → ((k : String) → p k ≡ q k)
      → count p ks ≡ count q ks
  count-same p q [] h = refl
  count-same p q (k ∷ ks) h = rw (h k, count-same p q ks h) refl

  sum-same :
      (f g : Vote → ℕ) (vs : List Vote) → ((v : Vote) → f v ≡ g v) → sum_by f vs ≡ sum_by g vs
  sum-same f g [] h = refl
  sum-same f g (v ∷ vs) h = rw (h v, sum-same f g vs h) refl

  -- What the sums over the votes give for one option.
  sum_or_clash :
      (choices : List String) (cast : List Vote) (c : String)
      → In c choices
      → (sum_by (λ v. count (hits (keys_of out choices []) c) v.choices) cast
          ≡ sum_by (λ v. count (str_eq (key_of out c)) v.choices) cast)
        ⊎ ((d : String) × In d choices × (str_eq d c ≡ false) × (key_of out d ≡ key_of out c))
  sum_or_clash choices cast c m = elim (Bool-cases (exists (clashes c) choices)) [
    | inl e ↦
        let (d, there, q) = exists_sound (clashes c) choices e in
        inr (
          d,
          there,
          ground (arith, q),
          (eq_iff (key_of out d) (key_of out c)).0 (ground (arith, q)),
        )
    | inr e ↦ inl (
        sum-same (λ v. count (hits (keys_of out choices []) c) v.choices)
          (λ v. count (str_eq (key_of out c)) v.choices) cast
          (λ v.
            count-same (hits (keys_of out choices []) c) (str_eq (key_of out c)) v.choices
              (λ k. hits_lem choices c k e m)))
  ]

  -- The result of a poll gives each of its options a number. That number is how often the hash of the
  -- option occurs in the votes stored for this poll and no other, unless another option of the same poll
  -- has the same hash; the votes of other polls and hashes of no option count nowhere.
  pub poll_results_lem :
      (fails : Faults) (now : ℕ) (chat id : String) (seen s : Store) (results : Results)
      → poll_results out fails now chat id seen s ≡ ok results
      → All
          (λ c.
            (n : ℕ) × (lookup c results.counts ≡ some n)
            × ((n
                  ≡ sum_by
                      (λ v. count (str_eq (key_of out c)) v.choices)
                      (select (λ v. str_eq v.chat chat && str_eq v.poll id) s.votes))
                ⊎ ((d : String) × In d results.choices
                    × (str_eq d c ≡ false)
                    × (key_of out d ≡ key_of out c))))
          results.choices
  unfolding poll_results
  poll_results_lem fails now chat id seen s results h =
      elim (Result-cases (get out fails 0 now chat id seen)) [
        | inr (e, q) ↦ absurd (ground (arith, q))
        | inl (r, q) ↦ elim (Result-cases (poll_choices out r)) [
          | inr (e, c) ↦ absurd (ground (arith, q, c))
          | inl (p, c) ↦
              let choices_are : p.options ≡ results.choices = ground (arith, q, c) in
              let cast = select (λ v. str_eq v.chat chat && str_eq v.poll id) s.votes in
              let counts_are : results.counts
                  ≡ tally_all (keys_of out p.options []) cast (zeros p.options []) =
                ground (arith, q, c) in
              subst (Counted cast results) choices_are (counted cast results p.options counts_are)
        ]
      ]
    where
      Counted : List Vote → Results → List String → Type 0
      Counted cast results cs =
          All
            (λ c.
              (n : ℕ) × (lookup c results.counts ≡ some n)
              × ((n ≡ sum_by (λ v. count (str_eq (key_of out c)) v.choices) cast)
                  ⊎ ((d : String) × In d cs
                      × (str_eq d c ≡ false)
                      × (key_of out d ≡ key_of out c))))
            cs

      counted :
          (cast : List Vote) (results : Results) (cs : List String)
          → results.counts ≡ tally_all (keys_of out cs []) cast (zeros cs [])
          → Counted cast results cs
      counted cast results cs e = All-of_In _ cs λ c m. (
        sum_by (λ v. count (hits (keys_of out cs []) c) v.choices) cast,
        ap (lookup c) e
            ∙ tally_all_lem (keys_of out cs []) c cast (zeros cs []) 0 (zeros_lem c cs [] m)
            ∙ ap some (zero_plus (sum_by (λ v. count (hits (keys_of out cs []) c) v.choices) cast)),
        sum_or_clash cs cast c m,
      )
