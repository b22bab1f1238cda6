-- ===== src/Core/Resolve/Extract.antt =====
-- resolve.go: `extractField` and what it calls. Messages and their descriptors are protoreflect's,
-- which is not in the repository: a record of the operations used and the laws relied on.
pub mod Scalars
pub mod Paths
use protobuf_interceptors.Base.{
  ℕ, Bool, true, false, ◌||◌, Option, none, some, List, [], ◌∷◌, ◌++◌, map, ◌≡◌, if◌then◌else◌,
}
use protobuf_interceptors.Text.Bytes.{Bytes, bytes, split, join}
use protobuf_interceptors.Text.Numbers.{ℤ, decimal, decimal_int, hex}
use protobuf_interceptors.Core.Errors.{Error, text, errorf, Result, ok, err, ◌>>=◌}

-- protoreflect.Kind
pub data Kind : Type 0 where
  bool_kind enum_kind int32_kind sint32_kind uint32_kind int64_kind sint64_kind : Kind
  uint64_kind sfixed32_kind fixed32_kind float_kind sfixed64_kind fixed64_kind : Kind
  double_kind string_kind bytes_kind message_kind group_kind : Kind

pub record Reflection : Type 1 where
  pub MessageDescriptor : Type 0
  pub FieldDescriptor : Type 0
  pub Message : Type 0
  pub Value : Type 0
  pub descriptor : Message → MessageDescriptor
  pub full_name : MessageDescriptor → Bytes
  pub field_by_name : MessageDescriptor → Bytes → Option FieldDescriptor
  pub name : FieldDescriptor → Bytes
  pub is_list : FieldDescriptor → Bool
  pub is_map : FieldDescriptor → Bool
  pub kind : FieldDescriptor → Kind
  pub kind_name : Kind → Bytes
  pub message_descriptor : FieldDescriptor → Option MessageDescriptor
  pub default : FieldDescriptor → Value
  pub has : Message → FieldDescriptor → Bool
  pub get : Message → FieldDescriptor → Value
  pub message : Value → Message
  pub string_value : Value → Bytes
  pub bytes_value : Value → Bytes
  pub int_value : Value → ℤ
  pub uint_value : Value → ℕ
  pub bool_value : Value → Bool
  -- a field found by a name has that name
  pub name_found :
      (md : MessageDescriptor) (n : Bytes) (fd : FieldDescriptor)
      → field_by_name md n ≡ some fd
      → name fd ≡ n

-- What `extractField` returns: a value, an unsetMessageError with its path, or another error.
pub data Extracted : Type 0 where
  value : Bytes → Extracted
  unset : Bytes → Extracted
  failed : Error → Extracted

abbrev pub extracted : Result Bytes → Extracted
extracted (ok v) = value v
extracted (err e) = failed e

-- %v of a bool
abbrev pub bool_text : Bool → Bytes
bool_text true = bytes "true"
bool_text false = bytes "false"

module _ (reflection : Reflection) where
  open reflection use {
    MessageDescriptor, FieldDescriptor, Message, Value, descriptor, full_name, field_by_name, name,
    is_list, is_map, kind, kind_name, message_descriptor, default, has, get, message, string_value,
    bytes_value, int_value, uint_value, bool_value,
  }

  -- The switch of `scalarString`.
  unfoldable pub scalar_of_kind : Kind → FieldDescriptor → Value → Result Bytes
  unfolding decimal decimal_int hex
  scalar_of_kind string_kind fd val = ok (string_value val)
  scalar_of_kind bytes_kind fd val = ok (hex (bytes_value val))
  scalar_of_kind int32_kind fd val = ok (decimal_int (int_value val))
  scalar_of_kind sint32_kind fd val = ok (decimal_int (int_value val))
  scalar_of_kind sfixed32_kind fd val = ok (decimal_int (int_value val))
  scalar_of_kind int64_kind fd val = ok (decimal_int (int_value val))
  scalar_of_kind sint64_kind fd val = ok (decimal_int (int_value val))
  scalar_of_kind sfixed64_kind fd val = ok (decimal_int (int_value val))
  scalar_of_kind uint32_kind fd val = ok (decimal (uint_value val))
  scalar_of_kind uint64_kind fd val = ok (decimal (uint_value val))
  scalar_of_kind fixed32_kind fd val = ok (decimal (uint_value val))
  scalar_of_kind fixed64_kind fd val = ok (decimal (uint_value val))
  scalar_of_kind bool_kind fd val = ok (bool_text (bool_value val))
  scalar_of_kind _ fd val = err (
      errorf "unsupported proto field kind %s for %s"
        (text (kind_name (kind fd)) ∷ text (name fd) ∷ []))

  -- `scalarString`
  unfoldable pub scalar_string : FieldDescriptor → Value → Result Bytes
  unfolding scalar_of_kind
  scalar_string fd val = scalar_of_kind (kind fd) fd val

  -- The checks of one segment in `fieldPath`, before its place in the path is looked at.
  unfoldable pub singular_field : MessageDescriptor → Bytes → Result FieldDescriptor
  singular_field md segment = elim (field_by_name md segment) [
    | none ↦ err (errorf "%s has no field %q" (text (full_name md) ∷ text segment ∷ []))
    | some fd ↦
        if is_list fd || is_map fd
        then err (
            errorf "field %s of %s is list/map, unsupported"
              (text segment ∷ text (full_name md) ∷ []))
        else ok fd
  ]

  -- The message that a segment before the last steps into.
  unfoldable pub step_into : MessageDescriptor → Bytes → FieldDescriptor → Result MessageDescriptor
  step_into md segment fd = elim (message_descriptor fd) [
    | none ↦ err (
        errorf "field %s of %s is not a message and has no fields"
          (text segment ∷ text (full_name md) ∷ []))
    | some inner ↦ ok inner
  ]

  -- The loop of `fieldPath` over the segments of the path.
  unfoldable pub path_fields : MessageDescriptor → List Bytes → Result (List FieldDescriptor)
  unfolding singular_field step_into scalar_string
  path_fields md [] = ok []
  path_fields md (segment ∷ []) = do
    fd ← singular_field md segment
    _ ← scalar_string fd (default fd)
    ok (fd ∷ [])
  path_fields md (segment ∷ next ∷ segments) = do
    fd ← singular_field md segment
    inner ← step_into md segment fd
    fields ← path_fields inner (next ∷ segments)
    ok (fd ∷ fields)

  -- `fieldPath`
  unfoldable pub field_path : MessageDescriptor → Bytes → Result (List FieldDescriptor)
  unfolding path_fields split
  field_path md path = path_fields md (split b'.' path)

  -- `joinNames`
  unfoldable pub join_names : List FieldDescriptor → Bytes
  unfolding join
  join_names fields = join b'.' (map name fields)

  -- The loop of `extractField`, behind the fields already walked, and the read of the last field.
  -- An empty list of fields, which `fieldPath` never returns, would index out of range.
  unfoldable pub read_path : Message → List FieldDescriptor → List FieldDescriptor → Extracted
  unfolding join_names scalar_string
  read_path m walked [] = failed (errorf "index out of range" [])
  read_path m walked (fd ∷ []) = extracted (scalar_string fd (get m fd))
  read_path m walked (fd ∷ next ∷ fields) =
      if has m fd
      then read_path (message (get m fd)) (walked ++ fd ∷ []) (next ∷ fields)
      else unset (join_names (walked ++ fd ∷ []))

  unfoldable pub read_fields : Message → Result (List FieldDescriptor) → Extracted
  unfolding read_path
  read_fields m (err e) = failed e
  read_fields m (ok fields) = read_path m [] fields

  -- `extractField`
  unfoldable pub extract_field : Message → Bytes → Extracted
  unfolding read_fields field_path
  extract_field m path = read_fields m (field_path (descriptor m) path)
