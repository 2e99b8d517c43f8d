-- ===== src/Tests/Config.antt =====
-- Configurations (TempDir, Config, Config/Laws) on a host that sets TMP.
use wamr_ext.Prelude.Text.{Text, bytes, text_eq}
use wamr_ext.Prelude.{Option, false, if◌then◌else◌, none, some, arith, ◌≡◌}
use wamr_ext.Config.Laws.{Fits}
use wamr_ext.Config.{max_memory, InstanceConfig, default_config, OptValue}

abbrev pub test_env : Text → Option Text
test_env v = if text_eq v (bytes "TMP") then some (bytes "/scratch") else none

abbrev pub test_config : InstanceConfig
test_config = default_config false test_env

pub value-Fits : (v : OptValue) → some (max_memory 200000) ≡ some v → Fits v
value-Fits (max_memory b) e = let q : 200000 ≡ b = cc e in omega (arith, q)
value-Fits _ e = tt
