-- ===== src/Shell.antt =====
-- The shell scripts that the stacks hand to their EC2 instances as user data. A script is a block
-- of commands, and a command is its words, with the shell variables left in them;
-- redirections of output are left out.
pub mod Docker
pub mod Systemd
pub mod Machine
use services_modulith_infra.Base.{String, List}

-- A systemd unit file.
pub record UnitFile : Type 0 where
  pub description : String
  pub requires : List String
  pub wants : List String
  pub after : List String
  pub service_type : String
  pub user : String
  pub environment : List String
  pub exec_start : List String
  pub remain_after_exit : String
  pub restart : String
  pub restart_sec : String
  pub wanted_by : String

mutual
  pub data Command : Type 0 where
    run : List String → Command
    -- `VAR=…`, with the words of the value
    assign : String → List String → Command
    -- `a | b`
    pipe : List String → List String → Command
    -- `if test; then … else … fi`, and a `case` with two branches
    branch : List String → Block → Block → Command
    -- `test -f path`
    check_file : (path : String) → Command
    -- `until test; do … done`
    until : List String → Block → Command
    exit : String → Command
    -- `sudo tee path > /dev/null <<'EOF'`
    tee_script : (path : String) → Block → Command
    tee_unit : (path : String) → UnitFile → Command

  pub data Block : Type 0 where
    done : Block
    step : Command → Block → Block

infixr 4 ◌⨟◌
pattern abbrev pub ◌⨟◌ : Command → Block → Block
c ⨟ b = step c b
