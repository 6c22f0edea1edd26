-- ===== src/Deployment/Groups.antt =====
-- The consumer groups that a scheduler that starts has made sure of, EnsureConsumerGroups of
-- internal/store/redis/queue.go.
use fleetforge.Base.{
  ℕ, ◌≡◌, refl, sym, ap, subst, ◌∙◌, true, Option, none, some, List, [], ◌∷◌, Bool-cases, inl, inr,
}
use mathlib.Core.List.{Memᴰ}
use mathlib.Core.List.Memᴰ
use fleetforge.Base.Bytes.{Bytes}
use fleetforge.Base.Checked.{passed, passed-bind, passed-inj}
use fleetforge.Deployment.Startup.{Machine, is_busy_group_err, group_created, ensure_groups}

module _ (machine : Machine) where
  open machine use {Client, Streams, create_group}

  -- What Redis documents of XGROUP CREATE: after it succeeds, or fails with BUSYGROUP, the group of
  -- the stream exists, and it takes no group away.
  pub record HasGroups : Type 1 where
    pub Exists : Client → ℕ → Streams → Type 0
    pub created :
        (client : Client) (p : ℕ) (st : Streams)
        → (create_group client p st).0 ≡ none
        → Exists client p (create_group client p st).1
    pub busy :
        (client : Client) (p : ℕ) (st : Streams) (text : Bytes)
        → (create_group client p st).0 ≡ some text
        → is_busy_group_err text ≡ true
        → Exists client p (create_group client p st).1
    pub kept :
        (client : Client) (p q : ℕ) (st : Streams)
        → Exists client q st
        → Exists client q (create_group client p st).1

  module _ (laws : HasGroups) where
    open laws use {Exists, created, busy, kept}

    group_created-Exists :
        (client : Client) (p : ℕ) (st : Streams) (reply : Option Bytes × Streams)
        → create_group client p st ≡ reply
        → {st' : Streams} → group_created machine p reply ≡ passed st'
        → (reply.1 ≡ st') × Exists client p st'
    unfolding group_created
    group_created-Exists client p st (none, after) e {st'} h =
        let same : after ≡ st' = passed-inj h in
        (
          same,
          subst (Exists client p) (ap (λ x. x.1) e ∙ same) (created client p st (ap (λ x. x.0) e)),
        )
    group_created-Exists client p st (some text, after) e {st'} h =
        elim (Bool-cases (is_busy_group_err text)) [
          | inr off ↦ absurd (cc (rw off at h))
          | inl on ↦
              let same : after ≡ st' = passed-inj (rw on at h) in
              (
                same,
                subst (Exists client p) (ap (λ x. x.1) e ∙ same)
                    (busy client p st text (ap (λ x. x.0) e) on),
              )
        ]

    ensure_groups-kept :
        (client : Client) (ps : List ℕ) (st : Streams) {st' : Streams} {q : ℕ}
        → ensure_groups machine client ps st ≡ passed st'
        → Exists client q st
        → Exists client q st'
    unfolding ensure_groups
    ensure_groups-kept client [] st h there = subst (Exists client _) (passed-inj h) there
    ensure_groups-kept client (p ∷ ps) st h there =
        let (mid, made, rest) =
          passed-bind (group_created machine p (create_group client p st)) _ h in
        let (same, here) = group_created-Exists client p st _ refl made in
        ensure_groups-kept client ps mid rest
          (subst (Exists client _) same (kept client p _ st there))

    -- After the loop every stream that it is about has its group.
    pub ensure_groups-Exists :
        (client : Client) (ps : List ℕ) (st : Streams) {st' : Streams} {q : ℕ}
        → ensure_groups machine client ps st ≡ passed st'
        → Memᴰ q ps
        → Exists client q st'
    unfolding ensure_groups
    ensure_groups-Exists client [] st h m = elim m [ ]
    ensure_groups-Exists client (p ∷ ps) st {st'} h m =
        let (mid, made, rest) =
          passed-bind (group_created machine p (create_group client p st)) _ h in
        let (same, here) = group_created-Exists client p st _ refl made in
        elim (Memᴰ.cases_cons m) [
          | inl e ↦
              subst (λ x. Exists client x st') (sym e) (ensure_groups-kept client ps mid rest here)
          | inr n ↦ ensure_groups-Exists client ps mid rest n
        ]
