-- ===== src/Config/Examples.antt =====
-- The theorem on the configuration at the defaults, with a frame rate of 0.
use popcorn_images.Base.{pos, false, [], codes}
use popcorn_images.Config.{Config}

abbrev config : Config
config = record {
  port = pos 10001;
  frame_rate = pos 0;
  display_num = pos 1;
  max_size_in_mb = pos 500;
  output_dir = codes ".";
  path_to_ffmpeg = codes "ffmpeg";
  dev_tools_proxy_port = pos 9222;
  log_cdp_messages = false;
  chrome_driver_proxy_port = pos 9224;
  chrome_driver_upstream_addr = codes "127.0.0.1:9225";
  dev_tools_proxy_addr = [];
  teek_url = codes "wss://tk.reclaimprotocol.org/ws";
  teet_url = codes "wss://tt.reclaimprotocol.org/ws";
  attestor_url = codes "wss://attestor.reclaimprotocol.org:444/ws";
}
