-- ===== src/Protocol.antt =====
-- The wire protocol's structs (ext/raygun/raygun_protocol.h) in the default build, without
-- RB_RG_EMIT_ARGUMENTS. A field is a number below its type's bound, a signed one its two's
-- complement pattern, and a `char` array the list of its bytes.
pub mod Valid
use raygun_apm_ruby.Base.{ℕ, List, ℤ, negsuc}

abbrev pub max_string_size : ℕ
max_string_size = 4096

abbrev pub max_short_string_size : ℕ
max_short_string_size = 127

abbrev pub min_payload : ℕ
min_payload = 19

abbrev pub max_variable_name : ℕ
max_variable_name = 200

abbrev pub shadow_stack_limit : ℕ
shadow_stack_limit = 256

abbrev pub scratch_buffer_size : ℕ
scratch_buffer_size = 32768

abbrev pub batch_packet_size : ℕ
batch_packet_size = 1400

abbrev pub max_batch_packet_size : ℕ
max_batch_packet_size = 4096

abbrev pub batch_headlen : ℕ
batch_headlen = 13

pub record EncodedShortString : Type 0 where
  pub encoding : ℕ
  pub length : ℕ  -- uint8_t
  pub string : List ℕ  -- char[UINT8_MAX]

pub record EncodedString : Type 0 where
  pub encoding : ℕ
  pub length : ℕ  -- int16_t
  pub string : List ℕ  -- char[RG_MAX_STRING_SIZE]

pub record LargeString : Type 0 where
  pub length : ℕ  -- uint32_t
  pub string : List ℕ  -- char[RG_MAX_STRING_SIZE]

-- `type` and the union `as`, one constructor for each `rg_variable_t`. Floats are bit patterns.
-- The types that no encoder writes a value for carry none.
pub data VariableValue : Type 0 where
  vt_void : VariableValue
  vt_boolean : ℕ → VariableValue
  vt_byte : VariableValue
  vt_short : ℕ → VariableValue
  vt_unsigned_short : ℕ → VariableValue
  vt_int32 : ℕ → VariableValue
  vt_unsigned_int32 : ℕ → VariableValue
  vt_long : ℕ → VariableValue
  vt_unsigned_long : ℕ → VariableValue
  vt_float : ℕ → VariableValue
  vt_double : VariableValue
  vt_string : EncodedString → VariableValue
  vt_struct : VariableValue
  vt_object : VariableValue
  vt_array : VariableValue
  vt_emptystring : VariableValue
  vt_nullstring : VariableValue
  vt_nullobject : VariableValue
  vt_largestring : LargeString → VariableValue

unfoldable pub variable_type : VariableValue → ℕ
variable_type vt_void = 0x1
variable_type (vt_boolean _) = 0x2
variable_type vt_byte = 0x3
variable_type (vt_short _) = 0x4
variable_type (vt_unsigned_short _) = 0x5
variable_type (vt_int32 _) = 0x6
variable_type (vt_unsigned_int32 _) = 0x7
variable_type (vt_long _) = 0x8
variable_type (vt_unsigned_long _) = 0x9
variable_type (vt_float _) = 0xa
variable_type vt_double = 0xb
variable_type (vt_string _) = 0xc
variable_type vt_struct = 0xd
variable_type vt_object = 0xe
variable_type vt_array = 0xf
variable_type vt_emptystring = 0x10
variable_type vt_nullstring = 0x11
variable_type vt_nullobject = 0x12
variable_type (vt_largestring _) = 0x13

pub record VariableInfo : Type 0 where
  pub length : ℕ  -- int16_t
  pub name_length : ℕ  -- uint8_t
  pub name : List ℕ  -- char[RG_MAX_VARIABLE_NAME]
  pub value : VariableValue

pub record ExceptionThrown : Type 0 where
  pub exception_id : ℕ  -- uint64_t
  pub class_name : EncodedString
  pub correlation_id : EncodedString

pub record Methodinfo : Type 0 where
  pub function_id : ℕ  -- uint32_t
  pub class_name : EncodedString
  pub method_name : EncodedString
  pub method_source : ℕ  -- uint8_t

pub record ProcessFrequency : Type 0 where
  pub frequency : ℕ  -- uint64_t

pub record ProcessType : Type 0 where
  pub technology_type : EncodedString
  pub process_type : EncodedString

pub record Begin : Type 0 where
  pub function_id : ℕ  -- uint32_t
  pub instance_id : ℕ  -- uint64_t
  pub argc : ℕ  -- uint8_t

-- `returnvalue` is read by the encoder through a cast to `rg_variable_info_t *`.
pub record End : Type 0 where
  pub function_id : ℕ  -- uint32_t
  pub tail_call : ℕ  -- int8_t
  pub returnvalue : VariableInfo

pub record Sql : Type 0 where
  pub provider : EncodedString
  pub host : EncodedString
  pub database : EncodedString
  pub query : EncodedString
  pub duration : ℕ  -- int64_t

pub record HttpIn : Type 0 where
  pub url : EncodedString
  pub verb : EncodedShortString
  pub status : ℕ  -- uint16_t
  pub duration : ℕ  -- int64_t

pub record HttpOut : Type 0 where
  pub url : EncodedString
  pub verb : EncodedShortString
  pub status : ℕ  -- uint16_t
  pub duration : ℕ  -- int64_t

pub record BeginTransaction : Type 0 where
  pub api_key : EncodedString
  pub technology_type : EncodedString
  pub process_type : EncodedString

pub record ThreadStarted : Type 0 where
  pub parent_tid : ℕ  -- uint32_t

-- `type` and the union `data`: the member that each type of event uses.
pub data EventData : Type 0 where
  begin : Begin → EventData
  end : End → EventData
  methodinfo : Methodinfo → EventData
  exception_thrown : ExceptionThrown → EventData
  thread_ended : EventData
  process_ended : EventData
  process_frequency : ProcessFrequency → EventData
  process_type : ProcessType → EventData
  batch : EventData
  sql : Sql → EventData
  http_in : HttpIn → EventData
  http_out : HttpOut → EventData
  begin_transaction : BeginTransaction → EventData
  end_transaction : EventData
  thread_started : ThreadStarted → EventData

unfoldable pub event_type : EventData → ℕ
event_type (begin _) = 0x1
event_type (end _) = 0x2
event_type (methodinfo _) = 0xf
event_type (exception_thrown _) = 0x12
event_type thread_ended = 0x8
event_type process_ended = 0xa
event_type (process_frequency _) = 0xb
event_type (process_type _) = 0xc
event_type batch = 0xfa
event_type (sql _) = 0x64
event_type (http_in _) = 0x65
event_type (http_out _) = 0x66
event_type (begin_transaction _) = 0x10
event_type end_transaction = 0x11
event_type (thread_started _) = 0x13

pub record Event : Type 0 where
  pub length : ℕ  -- int16_t
  pub pid : ℕ  -- uint32_t
  pub tid : ℕ  -- uint32_t
  pub timestamp : ℕ  -- int64_t
  pub payload : EventData  -- `data`

pub record EventBatch : Type 0 where
  pub length : ℕ  -- int16_t
  pub type : ℕ  -- uint8_t
  pub count : ℕ  -- int16_t
  pub sequence : ℕ  -- uint32_t
  pub pid : ℕ  -- uint32_t
  pub buf : List ℕ  -- RG_MAX_BATCH_PACKET_SIZE bytes

-- `rg_method_t`, an entry of the methodinfo table. `encoded` is empty until the
-- method is emitted; `length` is that of `name`.
pub record Method : Type 0 where
  pub function_id : ℕ  -- uint32_t
  pub encoded_size : ℕ  -- size_t
  pub encoded : List ℕ
  pub source : ℕ  -- uint8_t
  pub name : List ℕ

-- `rg_thread_t`, the shadow thread that follows a Ruby thread. The `int32_t` counters are integers.
pub record Thread : Type 0 where
  pub tid : ℕ  -- uint32_t
  pub parent_tid : ℕ  -- uint32_t
  pub shadow_top : ℤ
  pub vm_top : ℤ
  pub level_deep_into_third_party_lib : ℤ
  pub shadow_stack : List ℕ  -- RG_SHADOW_STACK_LIMIT function ids

-- `RG_THREAD_FRAMELESS` and `RG_THREAD_ORPHANED`.
abbrev pub thread_frameless : ℤ
thread_frameless = negsuc 0

abbrev pub thread_orphaned : ℕ
thread_orphaned = 0

-- `rg_method_source_t`.
abbrev pub source_user_code : ℕ
source_user_code = 0

abbrev pub source_system : ℕ
source_system = 1

abbrev pub source_known_library : ℕ
source_known_library = 2

abbrev pub source_wait_for_synchronization : ℕ
source_wait_for_synchronization = 4

-- The function id of the frame that wraps every trace.
abbrev pub trace_entrypoint_frame_id : ℕ
trace_entrypoint_frame_id = 1
