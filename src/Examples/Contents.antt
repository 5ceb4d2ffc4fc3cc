-- ===== src/Examples/Contents.antt =====
-- Error texts and objects in memory, on concrete values.
use s3mer.Base.{List, [], ◌∷◌, ◌≡◌, refl, none, some, ℕ}
use s3mer.Value.{Params, str, bytes, null}
use s3mer.Operations.{S3Operation, put_object, get_object, delete_object, create_bucket}
use s3mer.Exec.{ok}
use s3mer.Responses.{letters, xml_escape}
use s3mer.Responses.Escape.{read_xml, xml_escape-read_xml}
use s3mer.Memory.Values.{Call, Readable, unreadable, new_object}
use s3mer.Memory.Backend.{dispatch}
use s3mer.Memory.Objects.{answer_of, run, effects, get-run}
use s3mer.Memory.Kept.{kept}

xml_escape-read_xml_example :
    read_xml none (letters (xml_escape "<a & \"b\">'s &amp;"))
    ≡ some (letters "<a & \"b\">'s &amp;")
xml_escape-read_xml_example = xml_escape-read_xml "<a & \"b\">'s &amp;"

abbrev of_cat : List ℕ → Params
of_cat content = ("Bucket", str "photos") ∷ ("Key", str "cat") ∷ ("Body", bytes content) ∷ []

abbrev call : S3Operation → List ℕ → Call
call op content = record {
  name = "main";
  operation = op;
  params = of_cat content;
  hex = "f00d";
  now = null;
  readable = λ n. unreadable;
}

abbrev calls : List Call
calls =
    call create_bucket []
    ∷ call put_object (1 ∷ [])
    ∷ call delete_object []
    ∷ call put_object (2 ∷ 3 ∷ [])
    ∷ []

get-run_example :
    (dispatch (call get_object []) (run calls [])).0
    ≡ answer_of (effects "main" "photos" "cat" calls (kept "main" "photos" "cat" []))
unfolding s3mer.Memory.Values.text_param s3mer.Dict.get
get-run_example = get-run "main" "photos" "cat" calls [] (call get_object []) refl refl refl refl

-- The last object is answered.
answered :
    (dispatch (call get_object []) (run calls [])).0
    ≡ ok (new_object (call put_object (2 ∷ 3 ∷ [])) (2 ∷ 3 ∷ []))
unfolding dispatch run new_object s3mer.Dict.get s3mer.Dict.put s3mer.Dict.remove
answered = refl
