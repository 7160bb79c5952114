-- ===== src/Reports/Rules/Evidence.antt =====
-- The checks on a report's evidence.
use subnet.Prelude.{
  ◌^◌, ◌≤◌, ◌<◌, ◌≡◌, refl, sym, subst, ◌↔◌, false, Option, none, some, arith, nat_eq, text_Eq,
  some_eq, is_empty, length,
}
use subnet.Bytes.{Bytes}
use subnet.Reports.{ResourceUsage, VerificationEvidence, ExecutionReport}
use subnet.Reports.Rules.{validate_usage, validate_resource_usage, validate_evidence}

-- The limits of the resource usage, where it is reported.
abbrev IsRealistic : Option ResourceUsage → Type 0
IsRealistic none = Unit {0}
IsRealistic (some u) =
    (u.cpu_ms ≤ 1000000000)
    × (u.memory_mb ≤ 1000000000)
    × (u.io_ops ≤ 1000000000)
    × (u.network_bytes ≤ 2 ^ 50)

-- The proof, the fingerprint and the two hashes are there; a result above a mebibyte also has a
-- transcript root and references.
abbrev IsComplete : Bytes → VerificationEvidence → Type 0
IsComplete result e =
    (is_empty e.proof_exec ≡ false)
    × (is_empty e.env_fingerprint ≡ false)
    × (is_empty e.inputs_hash ≡ false)
    × (is_empty e.outputs_hash ≡ false)
    × (1048576 < length result
        → (is_empty e.transcript_root ≡ false) × (is_empty e.external_refs ≡ false))
    × IsRealistic e.resource_usage

abbrev pub HasEvidence : ExecutionReport → Type 0
HasEvidence r = (e : VerificationEvidence) × (r.evidence ≡ some e) × IsComplete r.result_data e

usage_iff : (u : Option ResourceUsage) → (validate_usage u ≡ none) ↔ IsRealistic u
unfolding validate_resource_usage
usage_iff none = ground arith
usage_iff (some u) = ground arith

evidence_at :
    (r : ExecutionReport) (o : Option VerificationEvidence)
    → (validate_evidence (record r { evidence = o }) ≡ none)
      ↔ HasEvidence (record r { evidence = o })
unfolding validate_evidence
evidence_at r none = ground arith
evidence_at r (some e) =
    let usage = usage_iff e.resource_usage in
    (
      λ h. (
        e,
        refl,
        (ground arith, ground arith, ground arith, ground arith, λ l. ground arith, ground arith),
      ),
      λ (x, same, h).
          let (p, f, i, o, l, u) = subst (IsComplete r.result_data) (sym (some_eq same)) h in
          ground (arith, l),
    )

pub validate_evidence_iff : (r : ExecutionReport) → (validate_evidence r ≡ none) ↔ HasEvidence r
validate_evidence_iff r = evidence_at r r.evidence
