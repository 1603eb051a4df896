-- ===== src/Indexes/Audit/Finished.antt =====
-- What the background task makes of an audit.
use sql_monitor.Base.{
  String, ◌≡◌, refl, sym, ◌∙◌, subst, ◌≢◌, ◌↔◌, ◌⊎◌, inl, inr, Option, none, some, none≢some, List,
  [], ◌∷◌, ◌++◌, arith, nat_eq, string_eq, pair_eq, Option-cases, int_eq, Text, list_eq,
}
use sql_monitor.Auth.{Uuid}
use sql_monitor.Indexes.Audit.{
  Instance, success, failed, MissingIndexAudit, Ddl, returned, raised, Server, IndexState,
  get_instance, get_audit, put_audit, operation_connection_string, on_ddl, mark_finished, send_ddl,
  run_ddl,
}

get_audit-id :
    (id : Uuid) (audits : List MissingIndexAudit) (a : MissingIndexAudit)
    → get_audit id audits ≡ some a
    → a.id ≡ id
unfolding get_audit
get_audit-id id [] a h = absurd (none≢some h)
get_audit-id id (b ∷ audits) a h = ground (arith, get_audit-id id audits a)

get_audit-put_self :
    (b : MissingIndexAudit) (audits : List MissingIndexAudit) (a : MissingIndexAudit)
    → get_audit b.id audits ≡ some a
    → get_audit b.id (put_audit b audits) ≡ some b
unfolding get_audit put_audit
get_audit-put_self b [] a h = absurd (none≢some h)
get_audit-put_self b (c ∷ audits) a h = ground (arith, get_audit-put_self b audits a)

get_audit-put_other :
    (id : Uuid) (b : MissingIndexAudit) (audits : List MissingIndexAudit)
    → b.id ≢ id
    → get_audit id (put_audit b audits) ≡ get_audit id audits
unfolding get_audit put_audit
get_audit-put_other id b [] h = refl
get_audit-put_other id b (c ∷ audits) h = ground (arith, get_audit-put_other id b audits h)

module _ (server : Server) (timeout_code failed_code : String) where
  -- an audit after the statement was run: it succeeded exactly if the server returned
  pub record IsFinished (a : MissingIndexAudit) (ddl : Ddl) (b : MissingIndexAudit) : Type 0 where
    pub ddl_summary : b.ddl_summary ≡ a.ddl_summary
    pub over :
        ((b.result ≡ success) × (b.error_message ≡ none))
        ⊎ ((b.result ≡ failed)
            × ((b.error_message ≡ some timeout_code) ⊎ (b.error_message ≡ some failed_code)))
    pub succeeded : (b.result ≡ success) ↔ (ddl ≡ returned)

  on_ddl-IsFinished :
      (a : MissingIndexAudit) (ddl : Ddl)
      → IsFinished a ddl (record a {
        result = (on_ddl server timeout_code failed_code ddl).0;
        error_message = (on_ddl server timeout_code failed_code ddl).1;
      })
  unfolding on_ddl
  on_ddl-IsFinished a returned = record {
    ddl_summary = refl;
    over = inl (refl, refl);
    succeeded = (λ h. refl, λ h. refl);
  }
  on_ddl-IsFinished a (raised text) = record {
    ddl_summary = refl;
    over = inr (refl, ground arith);
    succeeded = (λ h. cc h, λ h. cc h);
  }

  -- The background task of an audit whose instance is known and has a connection sends exactly
  -- the audit's statement, once, and leaves the audit finished: it is a success without a message
  -- if the server returned, and else a failure with the code of a timeout or of an error.
  pub run_ddl-IsFinished :
      (instances : List Instance) (id : Uuid) (s : IndexState) (a : MissingIndexAudit)
      (i : Instance) (connection : Text)
      → get_audit id s.audits ≡ some a
      → get_instance a.instance_id instances ≡ some i
      → operation_connection_string server i ≡ some connection
      → ((run_ddl server timeout_code failed_code instances id s).executed
          ≡ s.executed ++ (connection, a.ddl_summary) ∷ [])
        × ((b : MissingIndexAudit) × (get_audit id
                (run_ddl server timeout_code failed_code instances id s).audits
              ≡ some b)
            × IsFinished a (server.execute connection a.ddl_summary) b)
  unfolding run_ddl send_ddl mark_finished
  run_ddl-IsFinished instances id s a i connection found known connects =
      let done = on_ddl server timeout_code failed_code (server.execute connection a.ddl_summary) in
      let b = record a { result = done.0; error_message = done.1 } in
      let own : a.id ≡ id = get_audit-id id s.audits a found in
      let written : get_audit id (put_audit b s.audits) ≡ some b =
        subst (λ k. get_audit k s.audits ≡ some a → get_audit k (put_audit b s.audits) ≡ some b) own
          (get_audit-put_self b s.audits a) found in
      rw (found, run_ddl, known, connects)
        (refl, (b, written, on_ddl-IsFinished a (server.execute connection a.ddl_summary)))

  -- A background task leaves every other audit as it is, however it ends.
  pub run_ddl_keeps_others :
      (instances : List Instance) (id other : Uuid) (s : IndexState)
      → id ≢ other
      → get_audit other (run_ddl server timeout_code failed_code instances id s).audits
        ≡ get_audit other s.audits
  unfolding run_ddl mark_finished send_ddl
  run_ddl_keeps_others instances id other s apart = elim (Option-cases (get_audit id s.audits)) [
    | inl e ↦ rw (e, run_ddl) refl
    | inr (a, e) ↦
        let ne : a.id ≢ other = λ h. apart (sym (get_audit-id id s.audits a e) ∙ h) in
        elim (Option-cases (get_instance a.instance_id instances)) [
          | inl f ↦
              rw (e, run_ddl, f)
                (get_audit-put_other other
                  (record a { result = failed; error_message = some "INSTANCE_NOT_FOUND" }) s.audits
                  ne)
          | inr (i, f) ↦ rw (e, run_ddl, f) (sent a ne (operation_connection_string server i))
        ]
  ]
    where
      sent :
          (a : MissingIndexAudit)
          → a.id ≢ other
          → (connection : Option Text)
          → get_audit other (send_ddl server timeout_code failed_code a connection s).audits
            ≡ get_audit other s.audits
      sent a ne none = refl
      sent a ne (some connection) =
          let done =
            on_ddl server timeout_code failed_code (server.execute connection a.ddl_summary) in
          get_audit-put_other other (record a { result = done.0; error_message = done.1 }) s.audits
            ne
