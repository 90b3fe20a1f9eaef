-- ===== src/Sessions/Steps.antt =====
-- internal/session/manager.go: the changes that the operations are made of keep the manager sound.
use wppconnect_server_go.Prelude.{
  ◌+◌, ◌<◌, String, ◌≡◌, ◌∙◌, refl, sym, ap, subst, inl, inr, true, false, none, List, arith, ltb,
  str_eq, eq_iff, length, All, All-imp, All-In, lookup, insert, insert-IsMap, remove-IsMap,
  length-insert, length-remove-le, lookup_inserted, lookup_removed, lookup-insert_same,
  lookup-insert_other, lookup-remove_other, Bool-cases,
}
use wppconnect_server_go.Sessions.{Handle, Manager, Outside}
use wppconnect_server_go.Sessions.Lifecycle.{give_up, release, max_sessions}
use wppconnect_server_go.Sessions.Invariant.{
  IsLive, IsIntended, IsFine, IsSound, SameBut, other-IsFine, same_handle, differs,
}

module _ (out : Outside) where
  -- A live handle changes otherwise than in its key and its name, and perhaps its file with it.
  pub change-IsSound :
      (name : String) (h h' : Handle) (files' : List (String × String)) (m : Manager)
      → IsSound out m
      → IsLive m name h
      → h'.key ≡ h.key
      → h'.name ≡ h.name
      → h'.closing ≡ false
      → SameBut name m.files files'
      → IsIntended out files' h'
      → IsSound out (record m { files = files'; sessions = insert name h' m.sessions })
  change-IsSound name h h' files' m s l k n c same i =
      let m' = record m { files = files'; sessions = insert name h' m.sessions } in
      let before : (j : String) (g : Handle)
          → IsLive m' j g
          → (g' : Handle) × IsLive m j g' × (g.key ≡ g'.key) =
        λ j g p. elim (lookup_inserted name j h' g m.sessions p) [
          | inl (q, v) ↦ (h, subst (λ x. IsLive m x h) q l, ap (λ (x : Handle). x.key) (sym v) ∙ k)
          | inr (q, v) ↦ (g, v, refl)
        ] in
      record {
        each = λ j g p. elim (lookup_inserted name j h' g m.sessions p) [
          | inl (q, v) ↦
              let f = s.each name h l in
              subst (λ x. IsFine out m' x g) q
                (subst (λ x. IsFine out m' name x) v
                  (record {
                    named = n ∙ f.named;
                    alive = c;
                    known = omega (arith, f.known, k);
                    intended = i;
                    apart = λ x r e. f.apart x r (e ∙ k);
                  }))
          | inr (q, v) ↦
              other-IsFine out name j g m m' (s.each j g v) q same (omega arith)
                (s.each j g v).apart
        ];
        one_name = λ j j' g g' p p' q.
            let (x, u, e) = before j g p in
            let (x', u', e') = before j' g' p' in s.one_name j j' x x' u u' (sym e ∙ q ∙ e');
        accounted = λ x q. elim (s.accounted x q) [
          | inr r ↦ inr r
          | inl (j, g, u, e) ↦ elim (Bool-cases (str_eq name j)) [
            | inr t ↦ inl (j, g, lookup-insert_other name j h' g m.sessions t u, e)
            | inl t ↦ inl (
              name,
              h',
              lookup-insert_same name h' m.sessions,
              k ∙ ap (λ (y : Handle). y.key) (same_handle out name j h g m t l u) ∙ e,
            )
          ]
        ];
        keyed = insert-IsMap name h' m.sessions s.keyed;
        few = ground (arith, length-insert name h' m.sessions, l, s.few);
        ended = s.ended;
      }

  -- A live handle is released and taken from the map, and perhaps its file changes.
  pub retire-IsSound :
      (name : String) (h h' : Handle) (files' : List (String × String)) (m : Manager)
      → IsSound out m
      → IsLive m name h
      → h'.key ≡ h.key
      → SameBut name m.files files'
      → IsSound out (give_up name h' (record m { files = files' }))
  retire-IsSound name h h' files' m s l k same =
      let m' = give_up name h' (record m { files = files' }) in
      let gone : Handle = record h' { closing = true; code = "" } in
      record {
        each = λ j g p.
            let (q, v) = lookup_removed name j g m.sessions p in
            other-IsFine out name j g m m' (s.each j g v) q same (omega arith) (λ x r. elim r [
              | inl e ↦ λ w. absurd (
                  ground (
                    arith,
                    eq_iff name j,
                    q,
                    s.one_name name j h g l v (sym k ∙ ap (λ (y : Handle). y.key) (sym e) ∙ w),
                  ))
              | inr r' ↦ (s.each j g v).apart x r'
            ]);
        one_name = λ j j' g g' p p' q.
            s.one_name j j' g g' (lookup_removed name j g m.sessions p).1
              (lookup_removed name j' g' m.sessions p').1 q;
        accounted = λ x q. elim (s.accounted x q) [
          | inr (g, r, e) ↦ inr (g, inr r, e)
          | inl (j, g, u, e) ↦ elim (Bool-cases (str_eq name j)) [
            | inr t ↦ inl (j, g, lookup-remove_other name j g m.sessions t u, e)
            | inl t ↦ inr (
              gone,
              inl refl,
              k ∙ ap (λ (y : Handle). y.key) (same_handle out name j h g m t l u) ∙ e,
            )
          ]
        ];
        keyed = remove-IsMap name m.sessions s.keyed;
        few = omega (arith, length-remove-le name m.sessions, s.few);
        ended = ((refl, omega (arith, k, (s.each name h l).known)), s.ended);
      }

  -- The file of a session that is not live changes.
  pub file-IsSound :
      (name : String) (files' : List (String × String)) (m : Manager)
      → IsSound out m
      → lookup name m.sessions ≡ none
      → SameBut name m.files files'
      → IsSound out (record m { files = files' })
  file-IsSound name files' m s l same = record {
    each = λ j g p.
        other-IsFine out name j g m (record m { files = files' }) (s.each j g p)
          (differs out name j g m l p) same (omega arith) (s.each j g p).apart;
    one_name = s.one_name;
    accounted = s.accounted;
    keyed = s.keyed;
    few = s.few;
    ended = s.ended;
  }

  older :
      (m : Manager)
      → All (λ (g : Handle). (g.closing ≡ true) × (g.key < m.opened)) m.released
      → All (λ (g : Handle). (g.closing ≡ true) × (g.key < m.opened + 1)) m.released
  older m e =
      All-imp (λ (g : Handle). (g.closing ≡ true) × (g.key < m.opened))
        (λ (g : Handle). (g.closing ≡ true) × (g.key < m.opened + 1))
        (λ g r. (r.0, omega (arith, r.1))) m.released e

  -- A handle that was opened and never became live is released.
  pub discard-IsSound :
      (h : Handle) (m : Manager)
      → IsSound out m
      → h.key ≡ m.opened
      → IsSound out (release h (record m { opened = m.opened + 1 }))
  discard-IsSound h m s k = record {
    each = λ j g p.
        let f = s.each j g p in
        record {
          named = f.named;
          alive = f.alive;
          known = omega (arith, f.known);
          intended = f.intended;
          apart = λ x r. elim r [
            | inl e ↦ λ w. absurd (omega (arith, f.known, k, ap (λ (y : Handle). y.key) e, w))
            | inr r' ↦ f.apart x r'
          ];
        };
    one_name = s.one_name;
    accounted = λ x q. elim (Bool-cases (ltb x m.opened)) [
      | inr e ↦ inr (record h { closing = true; code = "" }, inl refl, ground (arith, e, q, k))
      | inl e ↦ elim (s.accounted x (ground (arith, e))) [
        | inl live ↦ inl live
        | inr (g, r, e') ↦ inr (g, inr r, e')
      ]
    ];
    keyed = s.keyed;
    few = s.few;
    ended = ((refl, omega (arith, k)), older m s.ended);
  }

  -- A handle that was opened becomes live.
  pub add-IsSound :
      (h : Handle) (files' : List (String × String)) (m : Manager)
      → IsSound out m
      → lookup h.name m.sessions ≡ none
      → length m.sessions < max_sessions
      → h.key ≡ m.opened
      → h.closing ≡ false
      → SameBut h.name m.files files'
      → IsIntended out files' h
      → IsSound out (record m {
        opened = m.opened + 1;
        files = files';
        sessions = insert h.name h m.sessions;
      })
  add-IsSound h files' m s l room k c same i =
      let m' = record m {
        opened = m.opened + 1;
        files = files';
        sessions = insert h.name h m.sessions;
      } in
      let fine : IsFine out m' h.name h = record {
        named = refl;
        alive = c;
        known = omega (arith, k);
        intended = i;
        apart = λ x r e. absurd (
            omega (
              arith,
              (All-In (λ (g : Handle). (g.closing ≡ true) × (g.key < m.opened)) x m.released s.ended
                  r).1,
              e,
              k,
            ));
      } in
      record {
        each = λ j g p. elim (lookup_inserted h.name j h g m.sessions p) [
          | inl (q, v) ↦
              subst (λ x. IsFine out m' x g) q (subst (λ x. IsFine out m' h.name x) v fine)
          | inr (q, v) ↦
              other-IsFine out h.name j g m m' (s.each j g v) q same (omega arith)
                (s.each j g v).apart
        ];
        one_name = λ j j' g g' p p' q. elim (lookup_inserted h.name j h g m.sessions p) [
          | inl (a, v) ↦ elim (lookup_inserted h.name j' h g' m.sessions p') [
            | inl (b, w) ↦ sym a ∙ b
            | inr (b, w) ↦
                absurd (omega (arith, (s.each j' g' w).known, ap (λ (y : Handle). y.key) v, q, k))
          ]
          | inr (a, v) ↦ elim (lookup_inserted h.name j' h g' m.sessions p') [
            | inl (b, w) ↦
                absurd (omega (arith, (s.each j g v).known, ap (λ (y : Handle). y.key) w, q, k))
            | inr (b, w) ↦ s.one_name j j' g g' v w q
          ]
        ];
        accounted = λ x q. elim (Bool-cases (ltb x m.opened)) [
          | inr e ↦ inl (h.name, h, lookup-insert_same h.name h m.sessions, ground (arith, e, q, k))
          | inl e ↦ elim (s.accounted x (ground (arith, e))) [
            | inl (j, g, u, e') ↦ inl (
              j,
              g,
              lookup-insert_other h.name j h g m.sessions (differs out h.name j g m l u) u,
              e',
            )
            | inr r ↦ inr r
          ]
        ];
        keyed = insert-IsMap h.name h m.sessions s.keyed;
        few = ground (arith, length-insert h.name h m.sessions, l, room);
        ended = older m s.ended;
      }
