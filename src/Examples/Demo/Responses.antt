-- ===== src/Examples/Demo/Responses.antt =====
-- The answers of the mock clients (examples/chat_agent/chat_agent.cpp,
-- examples/tool_call_demo/tool_call_demo.cpp, examples/offline_queue_demo/offline_queue_demo.cpp).
use embed_agent.Base.{List, [], ◌∷◌, ◌++◌, Text, codes}

-- chat_agent: three rounds.
abbrev pub chat_responses : List Text
chat_responses =
    (codes "{\"choices\":[{\"message\":{\"role\":\"assistant\",\"content\":null,"
      ++ (codes "\"tool_calls\":["
          ++ (codes "{\"id\":\"call_1\",\"type\":\"function\",\"function\":"
              ++ (codes "{\"name\":\"get_device_status\",\"arguments\":\"{}\"}},"
                  ++ (codes "{\"id\":\"call_2\",\"type\":\"function\",\"function\":"
                      ++ (codes "{\"name\":\"read_sensor\","
                          ++ (codes
                                "\"arguments\":\"{\\\"sensor_id\\\":1,\\\"unit\\\":\\\"celsius\\\"}\"}}"
                              ++ (codes "]},"
                                  ++ (codes "\"finish_reason\":\"tool_calls\"}]}")))))))))
    ∷ ((codes "{\"choices\":[{\"message\":{\"role\":\"assistant\",\"content\":null,"
          ++ (codes "\"tool_calls\":["
              ++ (codes "{\"id\":\"call_3\",\"type\":\"function\",\"function\":"
                  ++ (codes "{\"name\":\"set_gpio_pin\","
                      ++ (codes "\"arguments\":\"{\\\"pin\\\":5,\\\"value\\\":1}\"}}"
                          ++ (codes "]}," ++ (codes "\"finish_reason\":\"tool_calls\"}]}")))))))
        ∷ ((codes "{\"choices\":[{\"message\":{\"role\":\"assistant\","
              ++ (codes "\"content\":\"Device is healthy: uptime 7200 s, CPU 43 C, "
                  ++ (codes "61440 KB free, load 0.42. Sensor 1 reads 39.7 C. "
                      ++ (codes "Temperature exceeds 40 C threshold "
                          ++ ((226 ∷ (128 ∷ (148 ∷ [])))
                              ++ (codes " GPIO pin 5 has been set high. "
                                  ++ (codes "No anomalies in memory or load.\"},"
                                      ++ (codes "\"finish_reason\":\"stop\"}]}"))))))))
            ∷ []))

-- tool_call_demo: four rounds.
abbrev tool_demo_responses : List Text
tool_demo_responses =
    (codes "{\"choices\":[{\"message\":{\"role\":\"assistant\",\"content\":null,"
      ++ (codes "\"tool_calls\":["
          ++ (codes "{\"id\":\"c1\",\"type\":\"function\",\"function\":"
              ++ (codes "{\"name\":\"get_system_info\",\"arguments\":\"{}\"}},"
                  ++ (codes "{\"id\":\"c2\",\"type\":\"function\",\"function\":"
                      ++ (codes "{\"name\":\"get_memory_info\",\"arguments\":\"{}\"}},"
                          ++ (codes "{\"id\":\"c3\",\"type\":\"function\",\"function\":"
                              ++ (codes "{\"name\":\"read_cpu_temperature\",\"arguments\":\"{}\"}}"
                                  ++ (codes "]},"
                                      ++ (codes "\"finish_reason\":\"tool_calls\"}]}"))))))))))
    ∷ ((codes "{\"choices\":[{\"message\":{\"role\":\"assistant\",\"content\":null,"
          ++ (codes "\"tool_calls\":["
              ++ (codes "{\"id\":\"c4\",\"type\":\"function\",\"function\":"
                  ++ (codes "{\"name\":\"list_top_processes\","
                      ++ (codes "\"arguments\":\"{\\\"count\\\":5}\"}}"
                          ++ (codes "]}," ++ (codes "\"finish_reason\":\"tool_calls\"}]}")))))))
        ∷ ((codes "{\"choices\":[{\"message\":{\"role\":\"assistant\",\"content\":null,"
              ++ (codes "\"tool_calls\":["
                  ++ (codes "{\"id\":\"c5\",\"type\":\"function\",\"function\":"
                      ++ (codes "{\"name\":\"gpio_write\","
                          ++ (codes "\"arguments\":\"{\\\"pin\\\":18,\\\"value\\\":1}\"}},"
                              ++ (codes "{\"id\":\"c6\",\"type\":\"function\",\"function\":"
                                  ++ (codes "{\"name\":\"gpio_read\","
                                      ++ (codes "\"arguments\":\"{\\\"pin\\\":18}\"}}"
                                          ++ (codes "]},"
                                              ++ (codes
                                                  "\"finish_reason\":\"tool_calls\"}]}"))))))))))
            ∷ ((codes "{\"choices\":[{\"message\":{\"role\":\"assistant\","
                  ++ (codes "\"content\":\"System health check complete.\\n"
                      ++ (codes
                            "- Uptime and load: retrieved from /proc/uptime and /proc/loadavg.\\n"
                          ++ (codes "- Memory: obtained from /proc/meminfo (used% reported).\\n"
                              ++ (codes "- CPU temperature: read from thermal_zone0. "
                                  ++ (codes "Temperature exceeded 60 C threshold.\\n"
                                      ++ (codes "- Top 5 processes by RSS listed from /proc.\\n"
                                          ++ (codes
                                                "- Action: GPIO 18 set HIGH to activate cooling fan; "
                                              ++ (codes "pin state confirmed via gpio_read.\\n"
                                                  ++ (codes
                                                        "All checks passed. No other anomalies detected.\"},"
                                                      ++ (codes
                                                          "\"finish_reason\":\"stop\"}]}")))))))))))
                ∷ [])))

-- offline_queue_demo: two rounds.
abbrev pub queue_responses : List Text
queue_responses =
    (codes "{\"choices\":[{\"message\":{\"role\":\"assistant\",\"content\":null,"
      ++ (codes "\"tool_calls\":[{\"id\":\"call_1\",\"type\":\"function\","
          ++ (codes "\"function\":{\"name\":\"get_device_status\",\"arguments\":\"{}\"}}]},"
              ++ (codes "\"finish_reason\":\"tool_calls\"}]}"))))
    ∷ ((codes "{\"choices\":[{\"message\":{\"role\":\"assistant\","
          ++ (codes "\"content\":\"Device is healthy (mock flush).\"},"
              ++ (codes "\"finish_reason\":\"stop\"}]}")))
        ∷ [])
