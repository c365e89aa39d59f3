-- ===== src/Tests/Serves.antt =====
-- The asset handlers: runs and instances, over a MinIO that keeps what it is given as plain text.
use cache_server_go.Base.{
  ◌≡◌, refl, true, Option, none, some, [], Bytes, codes, dec_bytes, ℕ_discrete, pos, length,
}
use cache_server_go.Base.Maps.{Map, lookup, insert, delete}
use cache_server_go.Assets.Handlers.{
  Storage, put_done, GetReply, not_found, an_object, State, uploaded, served, deleted, upload,
  serve_asset, delete_asset, take, upload_type, detect_content_type, switch_on,
}
use cache_server_go.Assets.Paths.{miss_response}
use cache_server_go.Assets.Serves.{serve_asset-upload, serve_asset-delete_asset}
use cache_server_go.Tests.Assets.{two, two-IsAccounted, in_order, in_order-IsRange}

abbrev reply : Option Bytes → GetReply
reply none = not_found
reply (some v) = an_object (codes "text/plain") (pos (length v)) v

abbrev minio : Storage
minio = record {
  World = Map Bytes;
  now = λ w. 9;
  is_ready = true;
  put_object = λ key content_type body w. (put_done (pos (length body)), insert key body w);
  get_object = λ key w. (reply (lookup key w), w);
  remove_object = λ key w. delete key w;
  set_meta = λ key content_type size url at w. w;
  del_meta = λ key w. w;
  add_to_index = λ key w. w;
  remove_from_index = λ key w. w;
}

abbrev extension_of : Bytes → Bytes
extension_of name = codes ".css"

program : Unit {0}
unfolding upload_type detect_content_type switch_on take dec_bytes ℕ_discrete
program = tt

-- The type of the extension, where the header says nothing.
type_of_name : upload_type extension_of [] (codes "a.css") ≡ codes "text/css"
unfolding program
type_of_name = refl

abbrev start : State extension_of minio in_order
start = record { cache = two; world = [] }

serve_asset-upload_example :
    (url : Bytes) × (after end : State extension_of minio in_order) × (upload extension_of minio
        in_order
        (codes "c")
        (codes "x/y")
        (some (codes "ccc"))
        start
      ≡ some (uploaded (codes "c") url (pos 3) (codes "x/y"), after))
    × (serve_asset extension_of minio in_order (codes "c") after
        ≡ some (served (codes "x/y") (pos 3) true (codes "ccc"), end))
unfolding program
serve_asset-upload_example =
    serve_asset-upload extension_of minio in_order (codes "c") (codes "x/y") (codes "ccc") (pos 3)
      start in_order-IsRange two-IsAccounted refl (λ e. cc) refl

serve_asset-delete_asset_example :
    let (response, after) = delete_asset extension_of minio in_order (codes "a") start in
    (response ≡ deleted (codes "a"))
    × (end : State extension_of minio in_order) × (serve_asset extension_of minio in_order
          (codes "a")
          after
        ≡ some (miss_response (reply (lookup (codes "a") after.world)), end))
serve_asset-delete_asset_example =
    serve_asset-delete_asset extension_of minio in_order (codes "a") start in_order-IsRange
      two-IsAccounted refl (λ e. cc)
