-- ===== src/Http/Access.antt =====
-- The calls on one field and the clearing of networking/http.c, where the map keeps its contract.
use c_utils.Base.{ℕ, ◌≡◌, ◌≢◌, refl, ◌∙◌, Option, none, some, List}
use c_utils.Http.{Fields, Request, request_set_field, request_remove_field, request_get_field}

-- The contract of the map of the fields.
pub record IsMap {M : Type 0} (fields : Fields M) : Type 0 where
  pub find_added :
      (header : M) (field : List ℕ) (value : Option (List ℕ))
      → fields.find header field ≡ none
      → fields.find (fields.add header field value) field ≡ value
  pub find_added_other :
      (header : M) (field other : List ℕ) (value : Option (List ℕ))
      → other ≢ field
      → fields.find (fields.add header field value) other ≡ fields.find header other
  pub find_removed :
      (header : M) (field : List ℕ) → fields.find (fields.remove header field) field ≡ none
  pub find_removed_other :
      (header : M) (field other : List ℕ)
      → other ≢ field
      → fields.find (fields.remove header field) other ≡ fields.find header other

-- After a change of one field: what the field has now, and the others are as before.
pub record Changed {M : Type 0} (fields : Fields M) (field : List ℕ) (value : Option (List ℕ))
    (before after : Request M) : Type 0 where
  pub found : request_get_field fields after field ≡ value
  pub others :
      (other : List ℕ)
      → other ≢ field
      → request_get_field fields after other ≡ request_get_field fields before other
  pub same_line :
      (after.method ≡ before.method) × (after.path ≡ before.path) × (after.version ≡ before.version)

module _ {M : Type 0} (fields : Fields M) (keeps : IsMap fields) where
  -- c_utils_request_set_field, whether the field was there or not, leaves it with the new value, and
  -- c_utils_request_remove_field leaves it with none; both leave the other fields and the first line as
  -- they were.
  pub request_set_field-Changed :
      (req : Request M) (field values : List ℕ)
      → Changed fields field (some values) req (request_set_field fields req field values)
        × Changed fields field none req (request_remove_field fields req field)
  unfolding request_set_field request_remove_field request_get_field
  request_set_field-Changed req field values =
      let removed = fields.remove req.header field in
      (
        record {
          found =
              keeps.find_added removed field (some values) (keeps.find_removed req.header field);
          others = λ other h.
              keeps.find_added_other removed field other (some values) h
              ∙ keeps.find_removed_other req.header field other h;
          same_line = (refl, refl, refl);
        },
        record {
          found = keeps.find_removed req.header field;
          others = λ other h. keeps.find_removed_other req.header field other h;
          same_line = (refl, refl, refl);
        },
      )
