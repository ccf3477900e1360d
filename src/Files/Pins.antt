-- ===== src/Files/Pins.antt =====
-- file_store.go: pin leases and their request numbers.
use Prim.Native.String.{◌++◌}
use go_build_cache.Prelude.{String, List, [], ◌∷◌, sort_by}
use go_build_cache.Prelude.Exec.{Result, Exec, Done}
use go_build_cache.Prelude.Text.{str_lt}
use go_build_cache.Model.{Pin, PinRequest}
use go_build_cache.Errors.{Error, not_found}
use go_build_cache.Store.Pins.{pin_before}
use go_build_cache.Files.Paths.{FilePath, escape_key, join, json_suffix}
use go_build_cache.Files.System.{Attempt}
use go_build_cache.Files.Metadata.{
  Codec, FileStore, remove_file, load, save, load_dir, load_below, mapped, record_path,
}

unfoldable pub pin_path : FilePath → String → String → FilePath
unfolding join escape_key
pin_path root namespace key =
    join root ("pins" ∷ escape_key namespace ∷ (escape_key key ++ json_suffix) ∷ [])

module _ (c : Codec Pin) where
  unfoldable pub save_pin_file : Attempt → Pin → Exec Error FileStore Done
  save_pin_file a p s = save c a (pin_path s.root p.namespace p.key) p s

  -- readPin, and so GetPin
  unfoldable pub read_pin_file : String → String → FileStore → Result Error Pin
  read_pin_file namespace key s = load c (pin_path s.root namespace key) not_found s

  unfoldable pub list_pin_files : FileStore → List Pin
  list_pin_files s = sort_by pin_before (load_below c (join s.root ("pins" ∷ [])) s.files)

unfoldable pub delete_pin_file : String → String → FileStore → FileStore
delete_pin_file namespace key s = remove_file (pin_path s.root namespace key) s

unfoldable pub pin_request_path : FilePath → String → FilePath
pin_request_path = record_path "pin_requests"

module _ (c : Codec PinRequest) where
  unfoldable pub save_pin_request_file : Attempt → PinRequest → Exec Error FileStore Done
  save_pin_request_file a rec s = save c a (pin_request_path s.root rec.request_id) rec s

  unfoldable pub get_pin_request_file : String → FileStore → Result Error PinRequest
  get_pin_request_file id s = load c (pin_request_path s.root id) not_found s

  unfoldable pub list_pin_request_files : FileStore → Result Error (List PinRequest)
  list_pin_request_files s =
      mapped (sort_by (λ a b. str_lt a.request_id b.request_id))
        (load_dir c (join s.root ("pin_requests" ∷ [])) s.files)

unfoldable pub delete_pin_request_file : String → FileStore → FileStore
delete_pin_request_file id s = remove_file (pin_request_path s.root id) s
