-- ===== src/History/Paging.antt =====
-- Paging: `List` returns the newest messages first, without a gap.
use wppconnect_server_go.Prelude.{
  ℕ, zero, suc, ◌+◌, ◌≤◌, ◌<◌, ◌≡◌, ◌≢◌, refl, sym, ap, subst, ◌∙◌, ◌⊎◌, inl, inr, Bool, true,
  false, not, ◌&&◌, ◌||◌, List, [], ◌∷◌, ◌++◌, arith, Result-cases, ok, Faults, All, All-In,
  All-imp, In, In-append_left, Bool-cases, ltb, leb, ◌==◌, length, take, drop, length-take-le,
  str_eq, pos_part,
}
use wppconnect_server_go.Table.{select}
use wppconnect_server_go.Table.Laws.{In-select, All-select}
use wppconnect_server_go.Table.Order.{In-order_by}
use wppconnect_server_go.History.{Row, Store, Outside, cutoff}
use wppconnect_server_go.History.Invariant.{IsValid}
use wppconnect_server_go.History.Reads.{
  Query, Page, is_newer, is_listed, matching, page_limit, last_seq, is_nil, max_response, scan,
  fill, cut, list,
}
use wppconnect_server_go.History.Falling.{
  Falling, All-Rising, order_by-rev, rev-Falling, select-Rising, is_before, select_rest,
  last_seq-In, following, matching-following,
}

-- What the loop of `List` takes, and what it leaves.
record Filled (rows got : List Row) (page : Page) : Type 0 where
  taken : List Row
  rest : List Row
  messages_are : page.messages ≡ got ++ taken
  splits : rows ≡ taken ++ rest
  ends :
      ((page.next ≡ 0) × (rest ≡ []))
      ⊎ ((page.next ≡ last_seq page.messages) × (page.messages ≢ []))

append_nil : (xs : List Row) → xs ++ [] ≡ xs
append_nil [] = refl
append_nil (x ∷ xs) = ap (◌∷◌ x) (append_nil xs)

append_assoc_lem : (xs ys zs : List Row) → (xs ++ ys) ++ zs ≡ xs ++ (ys ++ zs)
append_assoc_lem [] ys zs = refl
append_assoc_lem (x ∷ xs) ys zs = ap (◌∷◌ x) (append_assoc_lem xs ys zs)

fill-Filled :
    (out : Outside) (rows got : List Row) (size : ℕ) (page : Page)
    → fill out rows got size ≡ ok page
    → Filled rows got page
unfolding fill
fill-Filled out [] got size page h =
    let same : page ≡ record { messages = got; next = 0 } = ground arith in
    record {
      taken = [];
      rest = [];
      messages_are = ap (λ (p : Page). p.messages) same ∙ sym (append_nil got);
      splits = refl;
      ends = inl (ap (λ (p : Page). p.next) same, refl);
    }
fill-Filled out (r ∷ rows) got size page h = elim (Result-cases (scan out r)) [
  | inr (e, p) ↦ absurd (ground (arith, p))
  | inl (x, p) ↦
      elim (Bool-cases (not (is_nil got) && ltb max_response (size + out.listed_size r))) [
        | inl full ↦
            let same : page ≡ record { messages = got; next = last_seq got } =
              ground (arith, p, full) in
            record {
              taken = [];
              rest = r ∷ rows;
              messages_are = ap (λ (p : Page). p.messages) same ∙ sym (append_nil got);
              splits = refl;
              ends = inr (
                ap (λ (p : Page). p.next) same
                    ∙ ap last_seq (sym (ap (λ (p : Page). p.messages) same)),
                λ z.
                    some_left got (ground (arith, full))
                      (sym (ap (λ (p : Page). p.messages) same) ∙ z),
              );
            }
        | inr fits ↦
            let f =
              fill-Filled out rows (got ++ r ∷ []) (size + out.listed_size r) page
                (ground (arith, p, fits)) in
            record {
              taken = r ∷ f.taken;
              rest = f.rest;
              messages_are = f.messages_are ∙ append_assoc_lem got (r ∷ []) f.taken;
              splits = ap (◌∷◌ r) f.splits;
              ends = f.ends;
            }
      ]
]
  where
    some_left : (xs : List Row) → is_nil xs ≡ false → xs ≢ []
    some_left [] e = absurd (ground (arith, e))
    some_left (x ∷ xs) e = λ z. cc z

take-drop : (n : ℕ) (rows : List Row) → rows ≡ take n rows ++ drop n rows
take-drop zero rows = refl
take-drop (suc n) [] = refl
take-drop (suc n) (r ∷ rows) = ap (◌∷◌ r) (take-drop n rows)

drop_short : (n : ℕ) (rows : List Row) → length rows ≤ n → drop n rows ≡ []
drop_short zero [] h = refl
drop_short zero (r ∷ rows) h = absurd (omega arith)
drop_short (suc n) [] h = refl
drop_short (suc n) (r ∷ rows) h = drop_short n rows (omega arith)

-- A page shows a first part of the rows, and its cursor says whether anything is left.
record Shown (asked : List Row) (limit : ℕ) (page : Page) : Type 0 where
  rest : List Row
  splits : asked ≡ page.messages ++ rest
  few : length page.messages ≤ limit
  ends :
      ((page.next ≡ 0) × (rest ≡ []))
      ⊎ ((page.next ≡ last_seq page.messages) × (page.messages ≢ []))

cut-Shown :
    (limit : ℕ) (asked : List Row) (page : Page)
    → 1 ≤ limit
    → Filled (take (limit + 1) asked) [] page
    → Shown asked limit (cut limit page)
unfolding cut
cut-Shown limit asked page w f = elim (Bool-cases (ltb limit (length page.messages))) [
  | inl e ↦ rw e (record {
    rest = drop limit page.messages ++ (f.rest ++ drop (limit + 1) asked);
    splits =
        all
        ∙ ap (λ t. t ++ (f.rest ++ drop (limit + 1) asked)) (take-drop limit page.messages)
        ∙ append_assoc_lem (take limit page.messages) (drop limit page.messages)
            (f.rest ++ drop (limit + 1) asked);
    few = length-take-le limit page.messages;
    ends = inr (refl, not_nil limit page.messages w (ground arith));
  })
  | inr e ↦ rw e (record {
    rest = f.rest ++ drop (limit + 1) asked;
    splits = all;
    few = ground arith;
    ends = elim f.ends [ inr q ↦ inr q | inl (z, q) ↦ inl (z, nothing q (ground arith)) ];
  })
]
  where
    all : asked ≡ page.messages ++ (f.rest ++ drop (limit + 1) asked)
    all =
        take-drop (limit + 1) asked
        ∙ ap (λ t. t ++ drop (limit + 1) asked)
            (f.splits ∙ ap (λ t. t ++ f.rest) (sym f.messages_are))
        ∙ append_assoc_lem page.messages f.rest (drop (limit + 1) asked)

    not_nil : (n : ℕ) (xs : List Row) → 1 ≤ n → n < length xs → take n xs ≢ []
    not_nil zero xs h l = absurd (omega arith)
    not_nil (suc n) [] h l = absurd (omega arith)
    not_nil (suc n) (x ∷ xs) h l = λ z. cc z

    full : (n : ℕ) (xs : List Row) → length (take n xs) < n → length xs < n
    full zero xs h = absurd (omega arith)
    full (suc n) [] h = omega arith
    full (suc n) (x ∷ xs) h = omega (arith, full n xs (omega arith))

    nothing : f.rest ≡ [] → length page.messages ≤ limit → f.rest ++ drop (limit + 1) asked ≡ []
    nothing q l =
        let len_is : length (take (limit + 1) asked) ≡ length page.messages =
          ap (λ (t : List Row). length t)
            (f.splits ∙ ap (λ t. f.taken ++ t) q ∙ append_nil f.taken ∙ sym f.messages_are) in
        rw q (
          drop_short (limit + 1) asked
            (omega (arith, full (limit + 1) asked (omega (arith, len_is)))))

list-Shown :
    (out : Outside) (fails : Faults) (now : ℕ) (q : Query) (s : Store) (page : Page)
    → list out fails now q s ≡ ok page
    → Shown (matching (cutoff now s) q s) (page_limit q) page
unfolding list
list-Shown out fails now q s page h =
    elim (Result-cases (fill out (take (page_limit q + 1) (matching (cutoff now s) q s)) [] 0)) [
      | inr (e, p) ↦ absurd (ground (arith, p))
      | inl (x, p) ↦
          subst (Shown (matching (cutoff now s) q s) (page_limit q)) (ground (arith, p)) (
            cut-Shown (page_limit q) (matching (cutoff now s) q s) x (ground (arith, p))
              (fill-Filled out (take (page_limit q + 1) (matching (cutoff now s) q s)) [] 0 x p))
    ]

-- A page is a first part of the messages that match the query, the newest first, with at most the
-- number asked for, or 50, and nothing in between is left out. Without a next cursor nothing is left to
-- list; with one the page is not empty, and what is left is exactly what the same query lists from that
-- cursor on: paging through a history that does not change shows each message once.
pub page_lem :
    (out : Outside) (fails : Faults) (now : ℕ) (q : Query) (s : Store) (page : Page)
    → IsValid s
    → list out fails now q s ≡ ok page
    → (rest : List Row) × (matching (cutoff now s) q s ≡ page.messages ++ rest)
      × (length page.messages ≤ page_limit q)
      × (((page.next ≡ 0) × (rest ≡ []))
          ⊎ ((page.messages ≢ [])
              × (1 ≤ page.next)
              × (rest ≡ matching (cutoff now s) (following q page.next) s)))
page_lem out fails now q s page v h =
    let sh = list-Shown out fails now q s page h in
    (
      sh.rest,
      sh.splits,
      sh.few,
      elim sh.ends [
        | inl e ↦ inl e
        | inr (e, some_left) ↦
            let k = resumes page.messages page.next e some_left sh.splits in
            inr (some_left, k.0, k.1)
      ],
    )
  where
    wide : (a b m u : Bool) → (a && b && m && u) ≡ true → m ≡ true
    wide a b m u h = ground arith

    narrow : (x c m : ℕ) → x ≡ c → (m == 0 || ltb x m) ≡ true → (m ≡ 0) ⊎ (c ≤ m)
    narrow x c m e h = elim (Bool-cases (m == 0)) [
      | inl z ↦ inl (ground arith)
      | inr z ↦ inr (ground arith)
    ]

    earlier :
        (x : Row) (c : ℕ)
        → x.seq ≡ c
        → is_listed (cutoff now s) q x ≡ true
        → (pos_part q.before ≡ 0) ⊎ (c ≤ pos_part q.before)
    earlier x c e h = narrow x.seq c (pos_part q.before) e (
        wide (leb (cutoff now s) x.t) (str_eq q.chat "" || str_eq x.chat q.chat)
          (pos_part q.before == 0 || ltb x.seq (pos_part q.before))
          (not q.unread || not x.read && not x.from_me) h)

    below : All (λ r. r.seq < suc s.sequence) (select (is_listed (cutoff now s) q) s.rows)
    below =
        All-select (λ r. r.seq < suc s.sequence) (is_listed (cutoff now s) q) s.rows
          (All-imp (λ r. r.seq ≤ s.sequence) (λ r. r.seq < suc s.sequence) (λ r k. omega arith)
            s.rows v.sound.bounded)

    resumes :
        (messages : List Row) (c : ℕ)
        → c ≡ last_seq messages
        → messages ≢ []
        → matching (cutoff now s) q s ≡ messages ++ (list-Shown out fails now q s page h).rest
        → (1 ≤ c)
          × ((list-Shown out fails now q s page h).rest ≡ matching (cutoff now s) (following q c) s)
    resumes [] c e left splits = absurd (left refl)
    resumes (r ∷ messages) c e left splits =
        let since = cutoff now s in
        let asked = select (is_listed since q) s.rows in
        let rising = select-Rising (is_listed since q) 0 s.rows v.sound.rising in
        let rest = (list-Shown out fails now q s page h).rest in
        let (x, m, same) = last_seq-In r messages in
        let there : In x (matching since q s) =
          subst (In x) (sym splits) (In-append_left x (r ∷ messages) rest m) in
        let (old, shown) =
          In-select (is_listed since q) x s.rows (In-order_by is_newer x asked there) in
        let low = All-In (λ y. 0 < y.seq) x s.rows (All-Rising 0 s.rows v.sound.rising) old in
        let falls : Falling (suc s.sequence) (matching since q s) =
          subst (Falling (suc s.sequence)) (sym (order_by-rev 0 asked rising))
            (rev-Falling 0 (suc s.sequence) asked below rising) in
        let split =
          (select_rest (suc s.sequence) r messages rest
            (subst (Falling (suc s.sequence)) splits falls)).1 in
        let next_is : c ≡ last_seq (r ∷ messages) = e in
        (
          omega (arith, next_is, same, low),
          sym (
              matching-following since c q s v (omega (arith, next_is, same, low))
                (earlier x c (omega (arith, next_is, same)) shown)
              ∙ ap (select (is_before c)) splits
              ∙ subst (λ n. select (is_before n) ((r ∷ messages) ++ rest) ≡ rest) (sym next_is)
                  split),
        )
