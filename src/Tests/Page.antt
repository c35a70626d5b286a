-- ===== src/Tests/Page.antt =====
-- The page of the settings: one value is edited.
use ragpolyglot_demo.Base.{if◌then◌else◌, none, ◌≡◌, inr, [], ◌∷◌, List}
use ragpolyglot_demo.Base.Text.{Text, codes}
use ragpolyglot_demo.Base.Dict.{lookup}
use ragpolyglot_demo.Shared.Types.{ConfigValueKind}
use ragpolyglot_demo.Config.Runtime.{RuntimeConfigSetting, RuntimeConfig, RuntimeConfigUpdate}
use ragpolyglot_demo.View.ConfigPage.{save, saved_values, on_saved, discard}
use ragpolyglot_demo.View.ConfigPage.Dirty.{
  PageEvent, handle_all, opened, unsaved, sent_value, save-handle_all,
}

abbrev top_k : Text → RuntimeConfigSetting
top_k value = record {
  key = codes "RAG_TOP_K";
  kind = ConfigValueKind.int;
  value = value;
  services = codes "api-gateway" ∷ [];
}

abbrev read : RuntimeConfig
read = record { env_file_path = codes "/app/.env"; settings = top_k (codes "5") ∷ [] }

abbrev accepted : RuntimeConfigUpdate
accepted = record {
  env_file_path = codes "/app/.env";
  changed_keys = codes "RAG_TOP_K" ∷ [];
  recreate_services = codes "api-gateway" ∷ [];
  command = [];
  settings = top_k (codes "7") ∷ [];
}

abbrev events : List PageEvent
events = PageEvent.loaded (inr read) ∷ PageEvent.edited (codes "RAG_TOP_K") (codes "7") ∷ []

save-handle_all_example :
    (sent_value (codes "RAG_TOP_K") (save (handle_all events opened)).1 ≡ (
      if (handle_all events opened).saving
      then none
      else unsaved
          (lookup (codes "RAG_TOP_K") (handle_all events opened).draft)
          (lookup (codes "RAG_TOP_K") (saved_values (handle_all events opened)))))
    × ((save (on_saved (inr accepted) (handle_all events opened))).1 ≡ none)
    × ((save (discard (handle_all events opened))).1 ≡ none)
save-handle_all_example = save-handle_all events (codes "RAG_TOP_K") accepted
