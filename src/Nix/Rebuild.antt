-- ===== src/Nix/Rebuild.antt =====
-- The apply sequence, Pipeline.Rebuild of internal/nix/rebuild.go. What a command does, and reading
-- the generation link, are parameters.
use nixbox.Prelude.{
  All, Bool, List, Option, Text, [], arith, false, if◌then◌else◌, none, not, some, true, ℕ, ◌&&◌,
  ◌==◌, ◌↔◌, ◌∷◌, ◌≡◌,
}

pub data Mode : Type 0 where
  switch test build : Mode

pub data Command : Type 0 where
  flake_lock : (state_dir : Text) → Command
  flake_update : (input flake : Text) → Command
  nixos_rebuild : Mode → (flake attr : Text) → Command

pub record Pipeline : Type 0 where
  pub host_flake : Text
  pub host_attr : Text
  pub state_dir : Text
  pub state_input_name : Text
  pub dry_run : Bool

-- The results: an error (code -1), a command's exit code, or success with a generation, if known.
pub data Outcome : Type 0 where
  broken : Outcome
  exited : ℕ → Outcome
  done : Option ℕ → Outcome

abbrev pub is_build : Mode → Bool
is_build switch = false
is_build test = false
is_build build = true

-- The mode that is used: a dry run only builds.
unfoldable pub effective : Bool → Mode → Mode
effective dry_run mode = if dry_run && not (is_build mode) then build else mode

-- `stream` gives a command's exit code, or `none` for an error; `generation` reads the system link.
-- The first part of a result is the commands that were run, in order.
module _ (stream : Command → Option ℕ) (generation : Option ℕ) where
  -- Run a command, and go on only if it exits with 0.
  unfoldable pub then_run : Command → List Command × Outcome → List Command × Outcome
  then_run c (later, out) = elim (stream c) [
    | none ↦ (c ∷ [], broken)
    | some code ↦ if code == 0 then (c ∷ later, out) else (c ∷ [], exited code)
  ]

  unfoldable pub rebuild : Pipeline → Mode → List Command × Outcome
  unfolding then_run effective
  rebuild p mode = then_run (flake_lock p.state_dir) (
      then_run (flake_update p.state_input_name p.host_flake) (
        then_run (nixos_rebuild (effective p.dry_run mode) p.host_flake p.host_attr)
          ([], done generation)))

-- A command that does not activate anything.
abbrev pub IsSafe : Command → Type 0
IsSafe (flake_lock d) = Unit
IsSafe (flake_update i f) = Unit
IsSafe (nixos_rebuild mode f a) = mode ≡ build

module _ (stream : Command → Option ℕ) (generation : Option ℕ) (p : Pipeline) (mode : Mode) where
  abbrev lock : Command
  lock = flake_lock p.state_dir

  abbrev update : Command
  update = flake_update p.state_input_name p.host_flake

  abbrev final : Command
  final = nixos_rebuild (effective p.dry_run mode) p.host_flake p.host_attr

  -- The rebuild is successful exactly if the three commands, run in this order, all exit with 0.
  pub rebuild-done : ((rebuild stream generation p mode).1 ≡ done generation) ↔ (
      (stream (flake_lock p.state_dir) ≡ some 0)
      × (stream (flake_update p.state_input_name p.host_flake) ≡ some 0)
      × (stream (nixos_rebuild (effective p.dry_run mode) p.host_flake p.host_attr) ≡ some 0))
  unfolding rebuild
  rebuild-done = (λ e. (ground arith, ground arith, ground arith), λ (a, b, c). ground arith)

  -- nixos-rebuild is run only after the lock and the update have exited with 0.
  pub rebuild-after :
      (c : Command)
      → (rebuild stream generation p mode).0 ≡ lock ∷ update ∷ c ∷ []
      → (stream lock ≡ some 0)
        × (stream update ≡ some 0)
        × (c ≡ nixos_rebuild (effective p.dry_run mode) p.host_flake p.host_attr)
  unfolding rebuild
  rebuild-after c e = (ground arith, ground arith, ground arith)

  -- A dry run never runs a command that activates a system, in whatever mode it was asked for.
  pub rebuild-dry : p.dry_run ≡ true → All IsSafe (rebuild stream generation p mode).0
  unfolding rebuild
  rebuild-dry dry = ground arith
