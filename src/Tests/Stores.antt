-- ===== src/Tests/Stores.antt =====
-- Creating a module in an empty database, and finding it.
use entropy.Base.{some, none, [], ◌∷◌, ◌≡◌, refl}
use entropy.Base.Text.{trim_space, trim_left, trim_right}
use entropy.Io.{ok, Call}
use entropy.Io.Calls.{answer, try, ◌>>=◌}
use entropy.Module.{Module, Driver, Descriptor, generate_module_urn, sanitise}
use entropy.Module.Service
use entropy.Module.Service.{discover_module}
use entropy.Postgres.{Tables, statement}
use entropy.Postgres.Modules
use entropy.Postgres.Modules.{find_module, insert_module_record}
use entropy.Postgres.Modules.Rows.{Changes, Creates, Updates, Deletes, module_writes-Changes}
use entropy.Postgres.Modules.Found.{over_tables, discover-create_module}

abbrev nothing : Tables
nothing = record {
  modules = [];
  rows = record {
    resources = [];
    dependencies = [];
    resource_tags = [];
    revisions = [];
    revision_tags = [];
  };
  next_resource_id = 1;
  next_revision_id = 1;
  locked = [];
  time = 7;
  faults = [];
}

abbrev asked : Module
asked = record {
  urn = "";
  name = "firehose";
  project = "shop";
  configs = some "{}";
  created_at = 0;
  updated_at = 0;
}

abbrev made : Module
made = record asked { urn = "orn:entropy:module:shop:firehose"; created_at = 7; updated_at = 7 }

abbrev one_module : Tables
one_module = record nothing { modules = made ∷ [] }

abbrev idle : Driver Tables
idle = record {
  plan = λ res act w. (ok res.resource, w);
  sync = λ res w. (ok res.resource.state, w);
  get_output = λ res w. (ok none, w);
  log = none;
}

abbrev desc : Descriptor Tables
desc = record {
  kind = "firehose";
  actions = [];
  dependencies = [];
  driver_factory = λ configs. ok idle;
}

abbrev find_driver : Module → Call Tables (Driver Tables × Descriptor Tables)
find_driver m w = (ok (idle, desc), w)

create_firehose :
    Service.create_module (over_tables find_driver (λ t. t.time)) asked nothing
    ≡ (ok made, one_module)
unfolding Service.create_module Modules.create_module insert_module_record find_module statement try
    answer ◌>>=◌ sanitise generate_module_urn trim_space trim_left trim_right
create_firehose = refl

urn_is_trimmed :
    trim_space (generate_module_urn "firehose" "shop") ≡ generate_module_urn "firehose" "shop"
unfolding generate_module_urn trim_space trim_left trim_right
urn_is_trimmed = refl

discover-create_module_example :
    discover_module (over_tables find_driver (λ t. t.time)) "firehose" "shop" one_module
    ≡ (ok made, one_module)
discover-create_module_example =
    discover-create_module find_driver (λ t. t.time) asked made nothing one_module create_firehose
      urn_is_trimmed refl

module_writes-Changes_example :
    Changes (Creates made) one_module (Modules.create_module made one_module)
    × Changes (Updates made 7) one_module (Modules.update_module made one_module)
    × Changes (Deletes made.urn) one_module (Modules.delete_module made.urn one_module)
module_writes-Changes_example = module_writes-Changes made made.urn one_module
