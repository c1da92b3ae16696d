-- ===== src/Server/Admin/Force.antt =====
-- `force_sth` of admin.rs.
use settled.Prelude.{
  ◌<◌, ◌^◌, List, [], ◌∷◌, ◌++◌, none, some, ◌≡◌, ◌⊎◌, inl, inr, arith, length, ℤ, IsI64, done,
}
use settled.Prelude.Results.{ok, err}
use settled.Storage.Types.{LogEntry, SignedTreeHead}
use settled.Storage.HeadStore.Writes.{head_puts}
use settled.Storage.HeadStore.Lookups.{last_head, last_head-cases, latest-last_head, All-last_head}
use settled.Server.Deps.{Deps}
use settled.Server.State.{AppState}
use settled.Server.Signing.Keep.{head_of, last_head-append, sign_and_store-IsServer}
use settled.Server.Admin.{force_sth, forced, get_sth, sth_json, internal_server_error, no_content}
use settled.Server.Invariant.{leaves_of, length-leaves_of, IsServer, IsHonest}

module _ (d : Deps) where
  get_sth-ok :
      (s : AppState d) (es : List LogEntry) (hs : List SignedTreeHead) (h : SignedTreeHead)
      → IsServer d s es hs
      → last_head hs ≡ some h
      → get_sth d s ≡ ok (sth_json d h)
  unfolding get_sth
  get_sth-ok s es hs h v last =
      rw (latest-last_head d.rocks d.head_messages s.inner.db hs v.log.0 v.head_rows v.heads, last)

  get_sth_none :
      (s : AppState d) (es : List LogEntry) (hs : List SignedTreeHead)
      → IsServer d s es hs
      → last_head hs ≡ none
      → get_sth d s ≡ err no_content
  unfolding get_sth
  get_sth_none s es hs v last =
      rw (latest-last_head d.rocks d.head_messages s.inner.db hs v.log.0 v.head_rows v.heads, last)

  -- A log without entries has no tree heads.
  no_heads :
      (s : AppState d) (es : List LogEntry) (hs : List SignedTreeHead)
      → IsServer d s es hs
      → length es ≡ 0
      → last_head hs ≡ none
  no_heads s es hs v empty = elim (last_head-cases hs) [
    | inl (none_there, none_last) ↦ none_last
    | inr (before, h, shape, last) ↦
        let honest : IsHonest d (leaves_of es) h =
          All-last_head (IsHonest d (leaves_of es)) hs h v.honest last in
        absurd (omega (arith, honest.some_leaves, honest.fits, length-leaves_of es))
  ]

  -- On a sound server with a clock of 64 bits and a key version of 32, `force_sth` answers "no
  -- content" and changes nothing when the log is empty; or the database refuses, which is an internal
  -- error and changes nothing; or it answers with a tree head of the whole log, which is the latest
  -- of the sound server that it leaves.
  pub force_sth-IsServer :
      (t : ℤ) (s : AppState d) (es : List LogEntry) (hs : List SignedTreeHead)
      → IsServer d s es hs
      → IsI64 t
      → s.signer.version < 2 ^ 32
      → ((length es ≡ 0) × (force_sth d t s ≡ done (err no_content, s)))
        ⊎ (((d.rocks.write s.inner.db (head_puts d.rocks d.head_messages (head_of d s es t)) ≡ none)
              × (force_sth d t s ≡ done (err internal_server_error, s)))
            ⊎ ((s' : AppState d) × (hs' : List SignedTreeHead) × (h : SignedTreeHead) × (force_sth d
                    t s
                  ≡ done (ok (sth_json d h), s'))
                × IsServer d s' es hs'
                × (last_head hs' ≡ some h)
                × (h.tree_size ≡ length es)))
  unfolding force_sth forced
  force_sth-IsServer t s es hs v ht hv = elim (sign_and_store-IsServer d t s es hs v ht hv) [
    | inl (inl empty, result) ↦
        inl (empty, rw (result, get_sth_none s es hs v (no_heads s es hs v empty)))
    | inl (inr (h, last, same), result) ↦
        inr (inr (s, hs, h, rw (result, get_sth-ok s es hs h v last), v, last, same))
    | inr (inl (refused, result)) ↦ inr (inl (refused, rw result))
    | inr (inr (s', result, v', inl empty)) ↦
        let no_last = no_heads s' es (hs ++ head_of d s es t ∷ []) v' empty in
        let last = last_head-append hs (head_of d s es t) in absurd (cc)
    | inr (inr (s', result, v', inr (h, last, same))) ↦ inr (
        inr (
          s',
          hs ++ head_of d s es t ∷ [],
          h,
          rw (result, get_sth-ok s' es (hs ++ head_of d s es t ∷ []) h v' last),
          v',
          last,
          same,
        ))
  ]
