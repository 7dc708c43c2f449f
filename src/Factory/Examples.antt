-- ===== src/Factory/Examples.antt =====
-- An example for the factory of tasks: a request for two links.
use save_any_bot.Prelude.{ok, refused, true, false, String, [], ◌∷◌}
use save_any_bot.Queue.{Contexts, new_task_queue}
use save_any_bot.Factory.{Outside, CreateTaskRequest, directlinks, Server, create_task}
use save_any_bot.Factory.Outcome.{Ends, create_task-Ends}

abbrev outside : Outside String
outside = record {
  has_storage = λ s. true;
  aria2_enabled = false;
  aria2_client = refused "no address";
  add_uri = λ us. refused "no client";
  parsers = [];
  extract_files = λ ls. ok [];
  make_element = λ f. ok f;
  extract_images = λ u. refused "not found";
  is_readable = λ s. false;
  is_listable = λ s. false;
  list_files = λ s p. ok [];
  title = λ t. "a task";
}

abbrev request : CreateTaskRequest
request = record {
  type = directlinks;
  storage = "disk";
  path = "/";
  webhook = "";
  params = ok (record {
    urls = "https://a/x" ∷ "https://a/y" ∷ [];
    flags = [];
    url = "";
    message_links = [];
    telegraph_url = "";
    source_storage = "";
    source_path = "";
    target_storage = "";
    target_path = "";
  });
}

abbrev server : Server
server = record { store = record { tasks = []; retention = 10 }; queue = new_task_queue }

abbrev contexts : Contexts
contexts ref = false

create_task-Ends_example :
    Ends "t1" "" server (create_task outside contexts 1 5 "t1" server request)
create_task-Ends_example = create_task-Ends outside contexts 1 5 "t1" server request
