-- ===== src/Tests/Reports.antt =====
-- The error reports of public.c at one code.
use handle_wifi_camera_itop.Public.Report.Codes.{Reported, reports}

reports_example : Reported 7 "rtp.c" "rtp_pthread" 120
reports_example = reports 7 "rtp.c" "rtp_pthread" 120
