-- ===== src/CartridgeFormat/Branches.antt =====
-- ARM branch words: armBranchTarget and makeArmBranch of src/cartridge_format.cpp.
use ezfadvance_iii.Prelude.{ℕ, ◌%◌, ◌≤◌, ◌<◌, ◌≡◌, some, arith}
use ezfadvance_iii.Prelude.Bytes.{IsU32}
use ezfadvance_iii.Prelude.Result.{ok, err}
use ezfadvance_iii.CartridgeFormat.{
  arm_branch_target, make_arm_branch, invalid_argument, out_of_range,
}

-- Decoding the branch that `makeArmBranch` made for a target gives that target back, and the made
-- word fits 32 bits.
pub arm_branch_target-make_arm_branch :
    (target : ℕ) {instruction : ℕ}
    → make_arm_branch target ≡ ok instruction
    → (arm_branch_target instruction ≡ some target) × IsU32 instruction
unfolding arm_branch_target make_arm_branch
arm_branch_target-make_arm_branch target h = ground arith

-- For an instruction that `armBranchTarget` decodes to a target of at least 8, `makeArmBranch`
-- gives the same instruction again.
pub make_arm_branch-arm_branch_target :
    (instruction : ℕ) {target : ℕ}
    → arm_branch_target instruction ≡ some target
    → 8 ≤ target
    → make_arm_branch target ≡ ok instruction
unfolding arm_branch_target make_arm_branch
make_arm_branch-arm_branch_target instruction h b = ground arith

-- Exactly which targets `makeArmBranch` refuses, and how.
pub make_arm_branch_total :
    (target : ℕ)
    → (target < 8 → make_arm_branch target ≡ err invalid_argument)
      × (8 ≤ target → 0 < target % 4 → make_arm_branch target ≡ err invalid_argument)
      × (33554440 ≤ target → target % 4 ≡ 0 → make_arm_branch target ≡ err out_of_range)
unfolding make_arm_branch
make_arm_branch_total target = (λ h. ground arith, λ h k. ground arith, λ h k. ground arith)
