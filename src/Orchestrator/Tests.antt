-- ===== src/Orchestrator/Tests.antt =====
-- Processing a VERIFIED record with a broker that accepts.
use etf_platform_paper_mode.Common.{◌≡◌, refl, ok}
use etf_platform_paper_mode.Fixtures.{orchestrator, world_in, record_in}
use etf_platform_paper_mode.Lifecycle.{verified}
use etf_platform_paper_mode.Orchestrator.{process_order}
use etf_platform_paper_mode.Orchestrator.Saved.{IsSaved}
use etf_platform_paper_mode.Orchestrator.Submission.{IsAnswered, submission_lem}
use etf_platform_paper_mode.Orchestrator.Steps.{IsKept, process_order-IsKept}

world_in-IsSaved : IsSaved (world_in verified)
world_in-IsSaved = (refl, tt)

submission_lem_example :
    let (outcome, w') = process_order orchestrator 9 (world_in verified) in
    IsSaved w' × (w'.broker ≡ 1) × IsAnswered (ok 77) (record_in verified) outcome w'.current
submission_lem_example = submission_lem orchestrator 9 (world_in verified) world_in-IsSaved refl

process_order-IsKept_example :
    IsKept (world_in verified) (process_order orchestrator 9 (world_in verified)).1
process_order-IsKept_example =
    process_order-IsKept orchestrator 9 (world_in verified) world_in-IsSaved
