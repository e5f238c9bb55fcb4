-- ===== src/Khi/Node/Reset.antt =====
-- What a reset of the Kawasaki node's errors does to its status and to what it publishes.
use icon_hwm_controller.Prelude.{
  ◌≡◌, ◌↔◌, ◌⊎◌, inl, inr, Bool-cases, refl, true, false, List, [], ◌∷◌, some, arith, if◌then◌else◌,
}
use icon_hwm_controller.Status.{is_ok}
use icon_hwm_controller.OperationalStatus.{OperationalStatus}
use icon_hwm_controller.Khi.Status.{ErrorInfo, all_fine, to_operational_status}
use icon_hwm_controller.Khi.Node.{
  Node, receive, on_error_info, reset_error_request, published, Trace, ResetErrorResponse, Services,
  clear_faults,
}

-- The status after the latest of some reports, or as it was.
abbrev pub latest_status : OperationalStatus → List ErrorInfo → OperationalStatus
latest_status s [] = s
latest_status s (e ∷ es) = latest_status (to_operational_status (some e)) es

-- The node's status is that of the latest report.
pub receive_latest :
    (n : Node) (es : List ErrorInfo)
    → receive n es ≡ record { operational_status = latest_status n.operational_status es }
unfolding receive on_error_info
receive_latest n [] = refl
receive_latest n (e ∷ es) = receive_latest (on_error_info n e).0 es

module _ (services : Services) (during between : List ErrorInfo) (n : Node) (t : Trace) where
  -- The reset succeeded: the service was there, answered in time, and reported success.
  pub record Resets : Type 0 where
    pub up : services.wait_for_service t ≡ true
    pub response : ResetErrorResponse
    pub answered : services.response (reset_error_request ∷ t) ≡ some response
    pub success : response.success ≡ true

  resets_of_ok : is_ok (clear_faults services during between n t).0 ≡ true → Resets
  unfolding clear_faults
  resets_of_ok e = ground arith

  ok_of_resets : Resets → is_ok (clear_faults services during between n t).0 ≡ true
  unfolding clear_faults
  ok_of_resets v = ground arith

  -- The reset succeeds exactly when the service was there, answered in time, and reported success.
  pub khi_reset_iff : (is_ok (clear_faults services during between n t).0 ≡ true) ↔ Resets
  khi_reset_iff = (resets_of_ok, ok_of_resets)

  -- After a success.
  pub clear_faults_forgets :
      is_ok (clear_faults services during between n t).0 ≡ true
      → let s = latest_status all_fine between in
        ((clear_faults services during between n t).1 ≡ record { operational_status = s })
        × ((clear_faults services during between n t).2 ≡ published s ∷ reset_error_request ∷ t)
  unfolding clear_faults
  clear_faults_forgets e =
      ground (arith, receive_latest (record { operational_status = all_fine }) between)

  -- After a failure.
  pub clear_faults_keeps :
      is_ok (clear_faults services during between n t).0 ≡ false
      → ((clear_faults services during between n t).1
          ≡ record { operational_status = latest_status n.operational_status during })
        × ((clear_faults services during between n t).2
            ≡ (if services.wait_for_service t then reset_error_request ∷ t else t))
  unfolding clear_faults
  clear_faults_keeps e = ground (arith, receive_latest n during)

  -- Either the service was there, answered in time and reported success: then the call succeeds, the
  -- reports that came in before are forgotten, and the status that is left and the one published are that
  -- of the latest report since, or `enabled`. Or not: then the call fails, the status is that of the
  -- latest report that came in during the call, or as it was, nothing is published, and the request
  -- was sent if the service was there.
  pub clear_faults_leaves :
      let (s, n', t') = clear_faults services during between n t in
      let since = latest_status all_fine between in
      (Resets
        × (is_ok s ≡ true)
        × (n' ≡ record { operational_status = since })
        × (t' ≡ published since ∷ reset_error_request ∷ t))
      ⊎ ((¬ Resets)
          × (is_ok s ≡ false)
          × (n' ≡ record { operational_status = latest_status n.operational_status during })
          × (t' ≡ (if services.wait_for_service t then reset_error_request ∷ t else t)))
  clear_faults_leaves = elim (Bool-cases (is_ok (clear_faults services during between n t).0)) [
    | inl fine ↦
        let (node, sent) = clear_faults_forgets fine in inl (khi_reset_iff.0 fine, fine, node, sent)
    | inr failed ↦
        let (node, sent) = clear_faults_keeps failed in
        inr (λ v. cc (khi_reset_iff.1 v), failed, node, sent)
  ]
