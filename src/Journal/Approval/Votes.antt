-- ===== src/Journal/Approval/Votes.antt =====
-- Votes on an approval request (crates/cloudledger-core/src/approval.rs): who can vote, and what the
-- status says of the votes so far.
use cloud_ledger.Base.{
  ℕ, suc, ◌≤◌, ◌<◌, not, true, length, Some, ◌≡◌, ◌≢◌, ◌↔◌, ◌⊎◌, inl, inr, refl, sym, ap, subst,
  ◌∙◌, Bool, false, ◌||◌, List, [], ◌∷◌, arith, Text, text_eq, eq_iff, any, push, ◌==◌, Has, All,
  contains_iff,
}
use cloud_ledger.Base.Exec.{ok, Result-cases}
use cloud_ledger.Journal.Roles.{role_eq}
use cloud_ledger.Journal.Approval.{
  ApprovalRequirementDetail, ApprovalStatus, status_beq_iff, ApprovalDecision, ApprovalRequest,
  new_request, approval_count, ApprovalVote, is_approve, add_checks, settle, add_change,
  add_decision,
}

-- The user has voted.
abbrev pub voted : Text → List ApprovalDecision → Bool
voted user decisions = any (λ decision. decision.approver_id == user) decisions

add_decision-cases :
    (decision : ApprovalDecision) (request : ApprovalRequest)
    → ((add_decision decision request).1 ≡ request)
      ⊎ (((add_decision decision request).0 ≡ ok tt)
          × ((add_decision decision request).1 ≡ add_change decision request))
unfolding add_decision
add_decision-cases decision request = elim (Result-cases (add_checks decision request)) [
  | inl (u, e) ↦ inr (ground arith)
  | inr (x, e) ↦ inl (ground arith)
]

pub add_decision_taken :
    (decision : ApprovalDecision) (request : ApprovalRequest)
    → (add_decision decision request).0 ≡ ok tt
    → (add_decision decision request).1 ≡ add_change decision request
unfolding add_decision
add_decision_taken decision request h = elim (Result-cases (add_checks decision request)) [
  | inl (u, e) ↦ ground arith
  | inr (x, e) ↦ absurd (ground arith)
]

-- A vote is taken exactly if the request is pending, the approver has not voted on it, and the role
-- is one of those required; otherwise it leaves the request as it was.
pub add_decision_iff :
    (decision : ApprovalDecision) (request : ApprovalRequest)
    → (((add_decision decision request).0 ≡ ok tt) ↔ (
        (request.status ≡ ApprovalStatus.pending)
        × (voted decision.approver_id request.decisions ≡ false)
        × Has decision.role request.requirement.required_roles))
      × (((add_decision decision request).1 ≡ request)
          ⊎ ((add_decision decision request).0 ≡ ok tt))
unfolding add_decision
add_decision_iff decision request =
    let listed = contains_iff request.requirement.required_roles decision.role in
    (
      ground (arith, status_beq_iff request.status ApprovalStatus.pending),
      ground (arith, add_decision-cases decision request),
    )

-- No approver stands twice among the decisions.
abbrev pub Distinct : List ApprovalDecision → Type 0
Distinct [] = Unit
Distinct (decision ∷ decisions) =
    (voted decision.approver_id decisions ≡ false) × Distinct decisions

-- The status that the decisions call for: rejected if one of them rejects, approved if all of them
-- approve and there are enough, and pending if all of them approve and some are missing.
pub record IsDue (status : ApprovalStatus) (min_approvals : ℕ) (decisions : List ApprovalDecision)
    : Type 0 where
  pub is_rejected :
      (status ≡ ApprovalStatus.rejected)
      ↔ Some (λ decision. decision.vote ≡ ApprovalVote.reject) decisions
  pub is_approved : (status ≡ ApprovalStatus.approved) ↔ (
      All (λ decision. decision.vote ≡ ApprovalVote.approve) decisions
      × (min_approvals ≤ length decisions))
  pub is_pending : (status ≡ ApprovalStatus.pending) ↔ (
      All (λ decision. decision.vote ≡ ApprovalVote.approve) decisions
      × (length decisions < min_approvals))

vote-cases : (vote : ApprovalVote) → (vote ≡ ApprovalVote.approve) ⊎ (vote ≡ ApprovalVote.reject)
vote-cases ApprovalVote.approve = inl refl
vote-cases ApprovalVote.reject = inr refl

-- Either a decision rejects, or all approve and so are counted.
votes-cases :
    (decisions : List ApprovalDecision)
    → (Some (λ decision. decision.vote ≡ ApprovalVote.reject) decisions
        × (any (λ decision. not (is_approve decision.vote)) decisions ≡ true)
        × ¬ (All (λ decision. decision.vote ≡ ApprovalVote.approve) decisions))
      ⊎ ((¬ (Some (λ decision. decision.vote ≡ ApprovalVote.reject) decisions))
          × All (λ decision. decision.vote ≡ ApprovalVote.approve) decisions
          × (any (λ decision. not (is_approve decision.vote)) decisions ≡ false)
          × (approval_count decisions ≡ length decisions))
votes-cases [] = inr (λ h. h, tt, refl, refl)
votes-cases (d ∷ decisions) = elim (vote-cases d.vote) [
  | inl good ↦ elim (votes-cases decisions) [
    | inl (found, test, differ) ↦ inl (inr found, ground arith, λ h. differ h.1)
    | inr (absent, all, test, counted) ↦ inr (
      λ h. elim h [ inl bad ↦ absurd (ground arith) | inr later ↦ absent later ],
      (good, all),
      ground arith,
      ground arith,
    )
  ]
  | inr bad ↦ inl (inl bad, ground arith, λ h. absurd (ground (arith, h.0)))
]

settle-IsDue :
    (min_approvals : ℕ) (decisions : List ApprovalDecision)
    → IsDue (settle ApprovalStatus.pending min_approvals decisions) min_approvals decisions
settle-IsDue min_approvals decisions = elim (votes-cases decisions) [
  | inl (found, test, differ) ↦ record {
    is_rejected = ground (arith, found);
    is_approved = ground (arith, differ);
    is_pending = ground (arith, differ);
  }
  | inr (absent, all, test, counted) ↦ record {
    is_rejected = ground (arith, absent);
    is_approved = ground (arith, all);
    is_pending = ground (arith, all);
  }
]

-- What holds of a request whatever the votes on it were.
pub record IsValid (request : ApprovalRequest) : Type 0 where
  pub distinct : Distinct request.decisions
  pub accepted :
      All (λ decision. Has decision.role request.requirement.required_roles) request.decisions
  pub settled : IsDue request.status request.requirement.min_approvals request.decisions
  pub enough : length request.decisions ≤ request.requirement.min_approvals

voted-push :
    (user : Text) (decisions : List ApprovalDecision) (decision : ApprovalDecision)
    → voted user (push decision decisions)
      ≡ (voted user decisions || (decision.approver_id == user))
voted-push user [] decision = ground arith
voted-push user (d ∷ decisions) decision = ground (arith, voted-push user decisions decision)

Distinct-push :
    (decision : ApprovalDecision) (decisions : List ApprovalDecision)
    → voted decision.approver_id decisions ≡ false
    → Distinct decisions
    → Distinct (push decision decisions)
Distinct-push decision [] fresh h = (refl, tt)
Distinct-push decision (d ∷ decisions) fresh h = (
  ground (
    arith,
    voted-push d.approver_id decisions decision,
    eq_iff d.approver_id decision.approver_id,
    eq_iff decision.approver_id d.approver_id,
  ),
  Distinct-push decision decisions (ground arith) h.1,
)

All-push :
    (P : ApprovalDecision → Type 0) (decision : ApprovalDecision)
    (decisions : List ApprovalDecision)
    → P decision
    → All P decisions
    → All P (push decision decisions)
All-push P decision [] p h = (p, tt)
All-push P decision (d ∷ decisions) p h = (h.0, All-push P decision decisions p h.1)

length-push :
    (decision : ApprovalDecision) (decisions : List ApprovalDecision)
    → length (push decision decisions) ≡ suc (length decisions)
length-push decision [] = refl
length-push decision (d ∷ decisions) = ground (arith, length-push decision decisions)

-- After a vote on a pending request.
pub add_change-IsDue :
    (decision : ApprovalDecision) (request : ApprovalRequest)
    → request.status ≡ ApprovalStatus.pending
    → IsDue
        (add_change decision request).status
        request.requirement.min_approvals
        (push decision request.decisions)
add_change-IsDue decision request is_pending =
    subst
      (λ status.
        IsDue (settle status request.requirement.min_approvals (push decision request.decisions))
          request.requirement.min_approvals (push decision request.decisions))
      (sym is_pending)
      (settle-IsDue request.requirement.min_approvals (push decision request.decisions))

add_change-IsValid :
    (decision : ApprovalDecision) (request : ApprovalRequest)
    → request.status ≡ ApprovalStatus.pending
    → voted decision.approver_id request.decisions ≡ false
    → Has decision.role request.requirement.required_roles
    → IsValid request
    → IsValid (add_change decision request)
add_change-IsValid decision request is_pending fresh role valid = record {
  distinct = Distinct-push decision request.decisions fresh valid.distinct;
  accepted = All-push _ decision request.decisions role valid.accepted;
  settled = add_change-IsDue decision request is_pending;
  enough =
      let missing = (valid.settled.is_pending.0 is_pending).1 in
      omega (arith, length-push decision request.decisions);
}

add_decision-IsValid :
    (decision : ApprovalDecision) (request : ApprovalRequest)
    → IsValid request
    → IsValid (add_decision decision request).1
add_decision-IsValid decision request valid = elim (add_decision-cases decision request) [
  | inl same ↦ subst IsValid (sym same) valid
  | inr (taken, same) ↦
      let (is_pending, fresh, role) = (add_decision_iff decision request).0.0 taken in
      subst IsValid (sym same) (add_change-IsValid decision request is_pending fresh role valid)
]

-- Votes one after the other, whatever becomes of each.
unfoldable pub vote_all : List ApprovalDecision → ApprovalRequest → ApprovalRequest
vote_all [] request = request
vote_all (decision ∷ decisions) request = vote_all decisions (add_decision decision request).1

vote_all-keeps :
    (decisions : List ApprovalDecision) (request : ApprovalRequest)
    → IsValid request
    → IsValid (vote_all decisions request)
unfolding vote_all
vote_all-keeps [] request valid = valid
vote_all-keeps (decision ∷ decisions) request valid =
    vote_all-keeps decisions (add_decision decision request).1
      (add_decision-IsValid decision request valid)

-- After any votes on a new request that needs an approval or more: no approver has decided twice,
-- every decision was made in a required role, there are at most as many decisions as approvals are
-- needed, and the request is rejected exactly if one of them rejects it, approved exactly if all of
-- them approve and they are as many, and pending exactly if all of them approve and some are missing.
pub vote_all-IsValid :
    (votes : List ApprovalDecision) (id ledger entry submitter : Text)
    (requirement : ApprovalRequirementDetail)
    → 1 ≤ requirement.min_approvals
    → IsValid (vote_all votes (new_request id ledger entry submitter requirement))
unfolding new_request
vote_all-IsValid votes id ledger entry submitter requirement some_needed =
    vote_all-keeps votes _
      (record { distinct = tt; accepted = tt; settled = ground arith; enough = ground arith })

-- A request that is no longer pending stays as it is, whatever votes follow.
pub vote_all-closed :
    (votes : List ApprovalDecision) (request : ApprovalRequest)
    → request.status ≢ ApprovalStatus.pending
    → vote_all votes request ≡ request
unfolding vote_all
vote_all-closed [] request closed = refl
vote_all-closed (vote ∷ votes) request closed = elim (add_decision-cases vote request) [
  | inl same ↦ ap (vote_all votes) same ∙ vote_all-closed votes request closed
  | inr (taken, change) ↦ absurd (closed ((add_decision_iff vote request).0.0 taken).0)
]
