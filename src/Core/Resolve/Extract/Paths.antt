-- ===== src/Core/Resolve/Extract/Paths.antt =====
-- The fields that a request_field path walks.
use protobuf_interceptors.Base.{
  ◌≡◌, ◌≢◌, ap, sym, ◌∙◌, List, [], ◌∷◌, ◌++◌, map, arith, Bool-cases, Option-cases, inl, inr,
}
use mathlib.Core.List.{append_assoc, map-append}
use protobuf_interceptors.Text.Bytes.{Bytes, split, join}
use protobuf_interceptors.Text.Bytes.Join.{join-split, join-append, split-ne-nil}
use protobuf_interceptors.Core.Errors.{ok, >>=-eq-ok, Result-cases}
use protobuf_interceptors.Core.Resolve.Extract.{
  Reflection, unset, singular_field, step_into, scalar_string, path_fields, field_path, join_names,
  read_path, read_fields, extract_field,
}

module _ (reflection : Reflection) where
  open reflection use {
    MessageDescriptor, FieldDescriptor, Message, name, descriptor, default, field_by_name,
    name_found, is_list, is_map, has, get, message,
  }

  singular_field-name :
      (md : MessageDescriptor) (segment : Bytes) (fd : FieldDescriptor)
      → singular_field reflection md segment ≡ ok fd
      → name fd ≡ segment
  unfolding singular_field
  singular_field-name md segment fd h = elim (Option-cases (field_by_name md segment)) [
    | inl missing ↦ ground arith
    | inr (fd', found) ↦ ground (arith, name_found md segment fd' found)
  ]

  -- The fields found are named by the segments, one each.
  path_fields-names :
      (md : MessageDescriptor) (segments : List Bytes) (fds : List FieldDescriptor)
      → path_fields reflection md segments ≡ ok fds
      → map name fds ≡ segments
  unfolding path_fields
  path_fields-names md [] fds h = ground arith
  path_fields-names md (s ∷ []) fds h =
      let (fd, e, k) = >>=-eq-ok (singular_field reflection md s) _ h in
      let (t, e', k') = >>=-eq-ok (scalar_string reflection fd (default fd)) _ k in
      ground (arith, singular_field-name md s fd e)
  path_fields-names md (s ∷ s' ∷ ss) fds h =
      let (fd, e, k) = >>=-eq-ok (singular_field reflection md s) _ h in
      let (inner, e', k') = >>=-eq-ok (step_into reflection md s fd) _ k in
      let (rest, e'', k'') = >>=-eq-ok (path_fields reflection inner (s' ∷ ss)) _ k' in
      ground (arith, singular_field-name md s fd e, path_fields-names inner (s' ∷ ss) rest e'')

  -- The fields that a path resolves to spell the path, and there is at least one.
  pub field_path-names :
      (md : MessageDescriptor) (path : Bytes) (fds : List FieldDescriptor)
      → field_path reflection md path ≡ ok fds
      → (join_names reflection fds ≡ path) × (fds ≢ [])
  unfolding field_path join_names
  field_path-names md path fds h =
      let named = path_fields-names md (split b'.' path) fds h in
      (
        ap (join b'.') named ∙ join-split b'.' path,
        λ e. split-ne-nil b'.' path (sym named ∙ ap (map name) e),
      )

  join_names-append :
      (walked : List FieldDescriptor) (fd next : FieldDescriptor) (fds : List FieldDescriptor)
      → join_names reflection (walked ++ fd ∷ next ∷ fds)
        ≡ join_names reflection (walked ++ fd ∷ []) ++ b'.' ∷ join b'.' (map name (next ∷ fds))
  unfolding join_names
  join_names-append walked fd next fds =
      rw (map-append name walked (fd ∷ next ∷ fds), map-append name walked (fd ∷ []))
        (join-append b'.' (map name walked) (name fd) (name next) (map name fds))

  read_path-unset :
      (m : Message) (walked fds : List FieldDescriptor) (p : Bytes)
      → read_path reflection m walked fds ≡ unset p
      → (q : Bytes) × (join_names reflection (walked ++ fds) ≡ p ++ b'.' ∷ q)
  unfolding read_path
  read_path-unset m walked [] p h = cc
  read_path-unset m walked (fd ∷ []) p h =
      elim (Result-cases (scalar_string reflection fd (get m fd))) [
        | inl (v, e) ↦ ground arith
        | inr (v, e) ↦ ground arith
      ]
  read_path-unset m walked (fd ∷ next ∷ fds) p h = elim (Bool-cases (has m fd)) [
    | inl set ↦
        let stepped : read_path reflection (message (get m fd)) (walked ++ fd ∷ []) (next ∷ fds)
            ≡ unset p =
          ground arith in
        let (q, e) =
          read_path-unset (message (get m fd)) (walked ++ fd ∷ []) (next ∷ fds) p stepped in
        (q, ap (join_names reflection) (sym (append_assoc walked (fd ∷ []) (next ∷ fds))) ∙ e)
    | inr missing ↦
        let here : join_names reflection (walked ++ fd ∷ []) ≡ p = ground arith in
        (
          join b'.' (map name (next ∷ fds)),
          join_names-append walked fd next fds
              ∙ ap (λ s. s ++ b'.' ∷ join b'.' (map name (next ∷ fds))) here,
        )
  ]

  -- A message that the request did not set is reported only for a path that the message's type
  -- has, under a proper prefix of that path that ends before a dot.
  pub extract_field-unset :
      (m : Message) (path p : Bytes)
      → extract_field reflection m path ≡ unset p
      → (fds : List FieldDescriptor) × (q : Bytes) × (field_path reflection (descriptor m) path
          ≡ ok fds)
        × (path ≡ p ++ b'.' ∷ q)
  unfolding extract_field read_fields
  extract_field-unset m path p h = elim (Result-cases (field_path reflection (descriptor m) path)) [
    | inl (fds, e) ↦
        let (q, k) = read_path-unset m [] fds p (ground arith) in
        (fds, q, e, sym (field_path-names (descriptor m) path fds e).0 ∙ k)
    | inr (e, refused) ↦ ground arith
  ]
