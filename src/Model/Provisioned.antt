-- ===== src/Model/Provisioned.antt =====
-- The run of the user data of ai_model_stack.py on the model's instance.
use services_modulith_infra.Base.{ℕ, ◌≡◌, refl, true, false, ◌⊎◌, inl, inr, All, In}
use services_modulith_infra.Shell.{Block}
use services_modulith_infra.Shell.Machine.{Machine, running, exited, run_block, start, with_errexit}
use services_modulith_infra.Shell.Machine.Errexit.{straight, run_block-succeeds}
use services_modulith_infra.Shell.Machine.Ends.{plain_block, block-Ends}
use services_modulith_infra.Model.Provisioning.{model_user_data}

-- The script behind its first command.
abbrev rest_of : Block → Block
rest_of Block.done = Block.done
rest_of (Block.step c b) = b

abbrev after_set : Block
after_set = rest_of model_user_data

user_data_is_plain : plain_block model_user_data ≡ true
unfolding plain_block
user_data_is_plain = refl

-- Whatever the machine does, the user data of the model's instance ends. Either it fails, or it has run
-- with success each of its commands that stand in no branch: among them the installations, the checks of
-- the programs and scripts, the writing of the units and the enabling of the servers.
pub provisioning-ends :
    (m : Machine) (rounds : ℕ) (w : m.World)
    → let (status, s) = run_block m rounds model_user_data (start m w) in
      ((status ≡ running) × All (λ c. In (c, true) s.trace) (straight model_user_data))
      ⊎ (status ≡ exited false)
unfolding run_block
provisioning-ends m rounds w =
    elim (block-Ends m rounds model_user_data (start m w) user_data_is_plain) [
      | inl e ↦ inl (e, run_block-succeeds m rounds after_set (with_errexit m (start m w)) refl e)
      | inr e ↦ inr e
    ]
