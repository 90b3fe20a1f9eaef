-- ===== src/Sessions/Drains.antt =====
-- internal/session/manager.go, Shutdown: what the draining of the sessions leaves.
use wppconnect_server_go.Prelude.{
  ℕ, ◌<◌, String, ◌≡◌, ◌∙◌, refl, sym, ap, subst, inl, inr, List, [], ◌∷◌, arith, lookup, remove,
  remove-absent, IsMap, eq_refl, In,
}
use wppconnect_server_go.Sessions.{closed, Handle, Manager, Outside}
use wppconnect_server_go.Sessions.Lifecycle.{give_up, stop, drain, drain_list}
use wppconnect_server_go.Sessions.Invariant.{IsLive, IsSound, SameBut-refl}
use wppconnect_server_go.Sessions.Steps.{retire-IsSound}

module _ (out : Outside) where
  pub stop-IsSound : (m : Manager) → IsSound out m → IsSound out (stop m)
  stop-IsSound m g = record {
    each = λ j h p.
        let f = g.each j h p in
        record {
          named = f.named;
          alive = f.alive;
          known = f.known;
          intended = f.intended;
          apart = f.apart;
        };
    one_name = g.one_name;
    accounted = g.accounted;
    keyed = g.keyed;
    few = g.few;
    ended = g.ended;
  }

  -- What the draining of the sessions `xs` makes of a manager that has those.
  pub record Drained (m m' : Manager) : Type 0 where
    pub sound : IsSound out m'
    pub empty : m'.sessions ≡ []
    pub files_kept : m'.files ≡ m.files
    pub opened_kept : m'.opened ≡ m.opened

  drain_list-Drained :
      (xs : List (String × Handle)) (m : Manager)
      → m.sessions ≡ xs
      → IsSound out m
      → Drained m (drain_list xs m)
  drain_list-Drained [] m e g = record {
    sound = g;
    empty = e;
    files_kept = refl;
    opened_kept = refl;
  }
  drain_list-Drained ((name, h) ∷ xs) m e g =
      let m' = give_up name (record h { status = closed }) m in
      let keys = subst IsMap e g.keyed in
      let live : IsLive m name h = ap (λ s. lookup name s) e ∙ ground (arith, eq_refl name) in
      let left : m'.sessions ≡ xs =
        ap (λ s. remove name s) e ∙ ground (arith, eq_refl name, remove-absent name xs keys.0) in
      let r = drain_list-Drained xs m' left (
        retire-IsSound out name h (record h { status = closed }) m.files m g live refl
          (SameBut-refl name m.files)) in
      record {
        sound = r.sound;
        empty = r.empty;
        files_kept = r.files_kept;
        opened_kept = r.opened_kept;
      }

  pub drain-Drained : (m : Manager) → IsSound out m → Drained m (drain m)
  unfolding drain
  drain-Drained m g = drain_list-Drained m.sessions m refl g

  -- After the draining that `Shutdown` starts, from a sound manager, no session is live, every handle that was ever opened
  -- has been released, and the files still say what is to be restored.
  pub drain_lem :
      (m : Manager)
      → IsSound out m
      → ((drain m).sessions ≡ [])
        × ((drain m).files ≡ m.files)
        × ((k : ℕ) → k < m.opened → (g : Handle) × In g (drain m).released × (g.key ≡ k))
  drain_lem m g =
      let d = drain-Drained m g in
      (
        d.empty,
        d.files_kept,
        λ k q. elim (d.sound.accounted k (subst (λ x. k < x) (sym d.opened_kept) q)) [
          | inr r ↦ r
          | inl (j, h, l, e) ↦ absurd (ground (arith, ap (λ s. lookup j s) d.empty, l))
        ],
      )
