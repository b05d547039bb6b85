-- ===== src/QueryLang/Resolve/Samples.antt =====
-- A catalog and an engine for tests.
use log_scope.Prelude.{ℕ, true, [], ◌∷◌, none, if◌then◌else◌}
use log_scope.Text.{codes, text_eq}
use log_scope.QueryLang.Resolve.Fields.{AttrType}
use log_scope.QueryLang.Resolve.Typed.{AttrFieldInfo, FieldResolution, CatalogView}
use log_scope.QueryLang.Resolve.Engine.{Engine}

-- A catalog with one text attribute, and an engine over ℕ that refuses every date and number.
abbrev host : AttrFieldInfo
host = record { path = codes "host" ∷ []; display = codes "host"; types = AttrType.str ∷ [] }

abbrev pub one_attr : CatalogView
one_attr = record {
  resolve_attr = λ t.
      if text_eq t (codes "host") then FieldResolution.attr host else FieldResolution.unknown [];
  attr_exists = text_eq (codes "host");
}

abbrev pub plain_engine : Engine ℕ
plain_engine = record {
  parse_f64 = λ t. none;
  is_finite = λ n. true;
  parse_rfc3339 = λ t. none;
  parse_date = λ t. none;
  compile = λ p i l. none;
  to_json = λ e. codes "q";
  blake3_hex = λ bs. codes "0";
}
