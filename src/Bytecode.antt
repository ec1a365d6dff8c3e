-- ===== src/Bytecode.antt =====
-- compiler/bytecode.py: instructions and compiled pipelines.
use fluxio.Prelude.{ℕ, String, List, Option, none}
use fluxio.Prelude.Int.{ℤ}
use fluxio.Prelude.Dict.{Dict}
use fluxio.Stage.{ForkMode, Stage}

pub data OpCode : Type 0 where
  call fork join route jump validate_input validate_output emit checkpoint : OpCode

pub data EventType : Type 0 where
  pipeline_start pipeline_end step_start step_end branch : EventType

pub record Instruction : Type 0 where
  pub op : OpCode
  pub node_id : Option String
  pub branch_ids : Option (List String)
  pub mode : Option ForkMode
  pub event_type : Option EventType
  pub route_map : Option (List (String × ℕ))
  pub target_ip : Option ℤ

-- An instruction with the fields that the constructor leaves at their default.
abbrev pub bare : OpCode → Instruction
bare op = record {
  op = op;
  node_id = none;
  branch_ids = none;
  mode = none;
  event_type = none;
  route_map = none;
  target_ip = none;
}

pub record CompiledPipeline (F S : Type 0) : Type 0 where
  pub instructions : List Instruction
  pub symbol_table : Dict (Stage F S)
  pub writes_map : Dict (List String)
  pub reads_map : Dict (List String)
  pub input_schemas : Dict S
  pub output_schemas : Dict S
  pub version : String
