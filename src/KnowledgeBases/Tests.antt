-- ===== src/KnowledgeBases/Tests.antt =====
-- A run of the catalog with texts that need no stripping, and its round trip there.
use raguardian.Prelude.Texts.{text_length, truncate}
use raguardian.Prelude.{
  ◌≡◌, refl, true, some, List, [], ◌∷◌, text_eq, filter, any, nat_eq, string_eq, option_eq, pair_eq,
}
use raguardian.KnowledgeBases.Catalog.{
  Builtins, default_knowledge_base, KnowledgeBase, text_of, File, missing, holds, is_status,
  is_knowledge_base_id, validate_knowledge_base_name, validate_knowledge_base_description,
  validate_timestamp, normalize, validate_records, default_count, with_one_default,
  validate_catalog, dump_record, dump_records, dump,
}
use raguardian.KnowledgeBases.{
  refused, load, with_catalog, default_record, ensure_default, find_record, change_record,
  write_change, begin_delete, require_active,
}
use raguardian.KnowledgeBases.RoundTrip

abbrev plain : Builtins
plain = record { strip = λ s. s; casefold = λ s. s; is_zoned = λ s. true }

program : Unit {0}
unfolding text_eq any filter text_of text_length truncate is_status is_knowledge_base_id
    validate_knowledge_base_name validate_knowledge_base_description validate_timestamp normalize
    validate_records default_count with_one_default validate_catalog dump_record dump_records dump
    load default_record ensure_default find_record change_record write_change begin_delete
    require_active with_catalog
program = tt

abbrev records : List KnowledgeBase
records = default_record plain "t" ∷ []

abbrev file : File
file = (ensure_default plain "t" missing).1

loads : load plain file ≡ some records
unfolding program
loads = refl

-- The default knowledge base cannot be deleted.
default_kept : (begin_delete plain "t" "default" "" file).0 ≡ refused default_knowledge_base
unfolding program
default_kept = refl

load_again_example : load plain (holds (dump records)) ≡ some records
load_again_example = RoundTrip.load_again plain (λ s. refl) file records loads
