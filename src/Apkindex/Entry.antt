-- ===== src/Apkindex/Entry.antt =====
-- internal/apkindex/parse.go: `Entry`, one block of an APKINDEX. Sizes and times are Go's `int64`,
-- the words below `2 ^ 64`.
use yoe.Common.{ℕ, List, [], Text}

pub record Entry : Type 0 where
  pub name : Text
  pub version : Text
  pub description : Text
  pub url : Text
  pub license : Text
  pub arch : Text
  pub size : ℕ
  pub installed_size : ℕ
  pub origin : Text
  pub maintainer : Text
  pub build_time : ℕ
  pub commit : Text
  pub checksum : Text
  pub checksum_text : Text
  pub deps : List Text
  pub provides : List Text
  pub replaces : List Text
  pub install_if : List Text

-- `Entry{}`
abbrev pub empty_entry : Entry
empty_entry = record {
  name = [];
  version = [];
  description = [];
  url = [];
  license = [];
  arch = [];
  size = 0;
  installed_size = 0;
  origin = [];
  maintainer = [];
  build_time = 0;
  commit = [];
  checksum = [];
  checksum_text = [];
  deps = [];
  provides = [];
  replaces = [];
  install_if = [];
}
