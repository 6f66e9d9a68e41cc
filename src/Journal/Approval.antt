-- ===== src/Journal/Approval.antt =====
-- crates/cloudledger-core/src/approval.rs: which approval an entry needs, and the votes on it. The
-- number of approvals needed is a `u8`, their count a `usize` bounded by the list of decisions.
use cloud_ledger.Base.{
  ℕ, ◌≡◌, ◌↔◌, Bool, true, false, not, ◌&&◌, Option, none, some, List, [], ◌∷◌, max, arith, Text,
  text_eq, if◌then◌else◌, ◌==◌, ◌!=◌, nat_beq, PartialEq, leb, any, count, find, push, contains,
}
use cloud_ledger.Base.Int.{leb_ℤ}
use cloud_ledger.Base.Exec.{Result, ok, err, Exec, commit}
use cloud_ledger.Base.Check.{◌>>◌, raise_if, require}
use cloud_ledger.Journal.Amount.{LedgerMoney, currency_eq}
use cloud_ledger.Journal.Book.{
  AccountingLedgerKind, personal_private, company_public, ApprovalPolicy, AccountingLedger,
}
use cloud_ledger.Journal.Entry.{JournalEntry, largest_line_amount}
use cloud_ledger.Journal.Roles.{LedgerRole, role_eq}
pub mod Votes
pub mod Required

pub data ApprovalReason : Type 0 where
  company_ledger high_value_company_entry : ApprovalReason

pub record ApprovalRequirementDetail : Type 0 where
  pub min_approvals : ℕ
  pub required_roles : List LedgerRole
  pub reason : ApprovalReason

pub data ApprovalRequirement : Type 0 where
  not_required : ApprovalRequirement
  required : ApprovalRequirementDetail → ApprovalRequirement

-- `ApprovalRequirementDetail::accepted_role`
abbrev pub accepted_role : ApprovalRequirementDetail → List LedgerRole → Option LedgerRole
accepted_role requirement roles = find (contains roles) requirement.required_roles

pub data ApprovalVote : Type 0 where
  approve reject : ApprovalVote

abbrev pub is_approve : ApprovalVote → Bool
is_approve ApprovalVote.approve = true
is_approve ApprovalVote.reject = false

pub data ApprovalStatus : Type 0 where
  pending approved rejected cancelled : ApprovalStatus

abbrev pub status_index : ApprovalStatus → ℕ
status_index ApprovalStatus.pending = 0
status_index ApprovalStatus.approved = 1
status_index ApprovalStatus.rejected = 2
status_index ApprovalStatus.cancelled = 3

abbrev pub status_beq : ApprovalStatus → ApprovalStatus → Bool
status_beq a b = nat_beq (status_index a) (status_index b)

pub status_beq_iff : (a b : ApprovalStatus) → (status_beq a b ≡ true) ↔ (a ≡ b)
status_beq_iff a b = ground arith

instance abbrev pub status_eq : PartialEq ApprovalStatus
status_eq = record { same = status_beq; same_iff = status_beq_iff }

pub record ApprovalDecision : Type 0 where
  pub approver_id : Text
  pub role : LedgerRole
  pub vote : ApprovalVote
  pub note : Option Text

pub record ApprovalRequest : Type 0 where
  pub id : Text
  pub ledger_id : Text
  pub entry_id : Text
  pub submitted_by : Text
  pub requirement : ApprovalRequirementDetail
  pub status : ApprovalStatus
  pub decisions : List ApprovalDecision

-- `ApprovalRequest::new`
unfoldable pub new_request : Text → Text → Text → Text → ApprovalRequirementDetail → ApprovalRequest
new_request id ledger entry submitter requirement = record {
  id = id;
  ledger_id = ledger;
  entry_id = entry;
  submitted_by = submitter;
  requirement = requirement;
  status = ApprovalStatus.pending;
  decisions = [];
}

pub data ApprovalDecisionError : Type 0 where
  already_closed duplicate_approver role_not_accepted : ApprovalDecisionError

abbrev pub approval_count : List ApprovalDecision → ℕ
approval_count decisions = count (λ decision. is_approve decision.vote) decisions

abbrev pub add_checks : ApprovalDecision → ApprovalRequest → Result ApprovalDecisionError (Unit {0})
add_checks decision request =
    raise_if (request.status != ApprovalStatus.pending) already_closed
    >> raise_if (any (λ existing. existing.approver_id == decision.approver_id) request.decisions)
        duplicate_approver
    >> require (contains request.requirement.required_roles decision.role) role_not_accepted

-- The status after a vote, over all decisions.
abbrev pub settle : ApprovalStatus → ℕ → List ApprovalDecision → ApprovalStatus
settle status min_approvals decisions =
    if any (λ decision. not (is_approve decision.vote)) decisions
    then ApprovalStatus.rejected
    else if leb min_approvals (approval_count decisions)
    then ApprovalStatus.approved
    else status

abbrev pub add_change : ApprovalDecision → ApprovalRequest → ApprovalRequest
add_change decision request =
    let decisions = push decision request.decisions in
    record request {
      decisions = decisions;
      status = settle request.status request.requirement.min_approvals decisions;
    }

-- `ApprovalRequest::add_decision`
unfoldable pub add_decision :
    ApprovalDecision → Exec ApprovalRequest ApprovalDecisionError (Unit {0})
add_decision decision request =
    commit (add_checks decision request) (λ u r. (tt, add_change decision r)) request

-- The amount reaches the ledger's threshold, in the threshold's currency.
abbrev pub reaches : ApprovalPolicy → LedgerMoney → Bool
reaches policy amount =
    (amount.currency == policy.high_value_threshold.currency)
    && leb_ℤ policy.high_value_threshold.minor_units amount.minor_units

abbrev pub high_value : ApprovalPolicy → Option LedgerMoney → Bool
high_value policy none = false
high_value policy (some amount) = reaches policy amount

abbrev pub company_requirement :
    ApprovalPolicy → List LedgerRole → Option LedgerMoney → ApprovalRequirement
company_requirement policy actor_roles largest =
    if high_value policy largest
    then required (record {
      min_approvals = max policy.min_approvals 1;
      required_roles = LedgerRole.owner ∷ [];
      reason = ApprovalReason.high_value_company_entry;
    })
    else if policy.company_entries_require_approval && not (contains actor_roles LedgerRole.owner)
    then required (record {
      min_approvals = max policy.min_approvals 1;
      required_roles = LedgerRole.approver ∷ LedgerRole.owner ∷ [];
      reason = ApprovalReason.company_ledger;
    })
    else not_required

abbrev pub requirement_of :
    AccountingLedgerKind
    → ApprovalPolicy
    → List LedgerRole
    → Option LedgerMoney
    → ApprovalRequirement
requirement_of (personal_private owner) policy actor_roles largest = not_required
requirement_of (company_public company) policy actor_roles largest =
    company_requirement policy actor_roles largest

unfoldable pub approval_requirement :
    AccountingLedger → List LedgerRole → JournalEntry → ApprovalRequirement
approval_requirement ledger actor_roles entry =
    requirement_of ledger.kind ledger.approval_policy actor_roles (largest_line_amount entry)
